-- ===== src/Admin/Resigned.antt =====
-- crates/garret-pusher/src/admin.rs: what `resign` leaves of every object.
use garret.Common.{
  Distinct, mem-append, mem, ℕ, ◌≡◌, refl, sym, ap, subst, ◌∙◌, Bool, true, false, Option, none,
  some, List, [], ◌∷◌, ◌++◌, map, arith, if◌then◌else◌, Text, text_eq_sym, is_some, length, inl,
  inr, Bool-cases, Option-cases,
}
use garret.Db.Schema.{Row, Database, find}
use garret.Db.Objects.{get_object, get_object_and_last_accessed, map_option, all_hashes}
use garret.Db.Rows.{Unique}
use garret.Db.Prune.{chunks}
use garret.Gc.{Shared, Environment, wait}
use garret.Fsck.{filter_map}
use garret.Admin.Dry.{Alone, waited}
use garret.Admin.Commands.{
  Keys, Tally, chunk, classify_sigs, update_all, resign_tally, resign_chunks, resigned_or, resign,
}
use garret.Admin.Sigs.{resigned_object, if_same}
use garret.Admin.Chunks.{
  chunk_resigned, flatten, Distinct-append, chunks-flatten, no_signers, unsigned,
}

module _ (env : Environment) (keys : Keys) (alone : Alone env) where
  -- The objects named are re-signed, the others are as they are.
  Resigned : List Text → Database → Database → Type 0
  Resigned hashes before after =
      (h : Text)
      → get_object after h ≡ (
          if mem h hashes
          then map_option (resigned_object keys) (get_object before h)
          else get_object before h)

  -- Without a key nothing changes, and nothing should.
  unsigned-Resigned :
      (hashes : List Text) (before after : Database)
      → keys.signers ≡ []
      → ((h : Text) → get_object after h ≡ get_object before h)
      → Resigned hashes before after
  unfolding Resigned
  unsigned-Resigned hashes before after e same h =
      same h
      ∙ sym (
          ap (λ o. if mem h hashes then o else get_object before h)
            (unsigned keys e (get_object before h))
          ∙ if_same (mem h hashes) (get_object before h))

  tally-Resigned :
      (hashes : List Text) (s : Shared) (sums : ℕ × ℕ) (t : Tally)
      → Distinct hashes
      → classify_sigs keys (filter_map (get_object s.db) hashes) ≡ some t
      → Resigned hashes s.db (update_all t.updates (wait env s).db)
  unfolding Resigned
  tally-Resigned hashes s sums t d e h =
      ap (λ db. get_object (update_all t.updates db) h) (waited env alone s)
      ∙ chunk_resigned keys s.db hashes s.db {t = t} d (λ j m. refl) e h

  both-Resigned :
      (first rest : List Text) (before middle after : Database)
      → ((h : Text) → mem h first ≡ true → mem h rest ≡ false)
      → Resigned first before middle
      → Resigned rest middle after
      → Resigned (first ++ rest) before after
  unfolding Resigned
  both-Resigned first rest before middle after apart r q h = elim (Bool-cases (mem h first)) [
    | inl t ↦ q h ∙ ground (arith, apart h t, r h, mem-append h first rest, t)
    | inr f ↦
        q h
        ∙ ap (λ o. if mem h rest then map_option (resigned_object keys) o else o) (r h ∙ rw f refl)
        ∙ ap
            (λ b.
              if b
              then map_option (resigned_object keys) (get_object before h)
              else get_object before h)
            (sym (mem-append h first rest ∙ rw f refl))
  ]

  stopped :
      (lists : List (List Text)) (s : Shared) → resign_chunks env keys lists (none, s) ≡ (none, s)
  unfolding resign_chunks
  stopped [] s = refl
  stopped (hashes ∷ lists) s = refl

  chunks-Resigned :
      (lists : List (List Text)) (s : Shared) (sums : ℕ × ℕ)
      → Distinct (flatten lists)
      → Resigned (flatten lists) s.db (resign_chunks env keys lists (some sums, s)).1.db
  unfolding resign_chunks Resigned
  chunks-Resigned [] s sums d = λ h. refl
  chunks-Resigned (hashes ∷ lists) s sums d =
      let (here, later, apart) = Distinct-append hashes (flatten lists) d in
      let t = wait env s in
      elim (Option-cases (classify_sigs keys (filter_map (get_object t.db) hashes))) [
        | inl n ↦
            subst
              (λ (r : Option (ℕ × ℕ) × Shared).
                Resigned (hashes ++ flatten lists) s.db (resign_chunks env keys lists r).1.db)
              (ap (resign_tally env keys t sums) (sym n))
              (unsigned-Resigned (hashes ++ flatten lists) s.db _
                (no_signers keys (filter_map (get_object t.db) hashes) n)
                (λ h.
                  ap (λ (r : Option (ℕ × ℕ) × Shared). get_object r.1.db h) (stopped lists t)
                  ∙ ap (λ db. get_object db h) (waited env alone s)))
        | inr (tally, e) ↦
            subst
              (λ (r : Option (ℕ × ℕ) × Shared).
                Resigned (hashes ++ flatten lists) s.db (resign_chunks env keys lists r).1.db)
              (ap (resign_tally env keys t sums) (sym e))
              (both-Resigned hashes (flatten lists) s.db (update_all tally.updates (wait env t).db)
                _ apart
                (subst (λ db. Resigned hashes db (update_all tally.updates (wait env t).db))
                  (waited env alone s) (tally-Resigned hashes t sums tally here e))
                (chunks-Resigned lists _ _ later))
      ]

-- The keys of the rows.
hashes-mem :
    (h : Text) (rows : List Row)
    → mem h (map (λ (r : Row). r.store_path_hash) rows) ≡ is_some (find h rows)
unfolding find
hashes-mem h [] = refl
hashes-mem h (r ∷ rows) = ground (arith, hashes-mem h rows, text_eq_sym h r.store_path_hash)

hashes-Distinct :
    (rows : List Row) → Unique rows → Distinct (map (λ (r : Row). r.store_path_hash) rows)
hashes-Distinct [] u = tt
hashes-Distinct (r ∷ rows) u =
    (hashes-mem r.store_path_hash rows ∙ ap is_some u.0, hashes-Distinct rows u.1)

get_object-absent :
    (db : Database) (h : Text) → is_some (find h db.objects) ≡ false → get_object db h ≡ none
unfolding get_object get_object_and_last_accessed
get_object-absent db h e = elim (Option-cases (find h db.objects)) [
  | inl n ↦ rw n refl
  | inr (r, f) ↦ cc (rw f at e)
]

resigned_or-shared :
    (env : Environment) (keys : Keys) (r : Option (ℕ × ℕ) × Shared)
    → (resigned_or env keys r).1 ≡ r.1
resigned_or-shared env keys (none, s) = refl
resigned_or-shared env keys (some sums, s) = refl

-- While nothing else runs, a re-signing gives every object that one of its signatures vouches for
-- the signatures of all keys, and leaves every other object, and everything else of an object, as it
-- was.
pub resign_lem :
    (env : Environment) (keys : Keys) (s : Shared)
    → Alone env
    → Unique s.db.objects
    → (h : Text)
    → get_object (resign env keys s).1.db h ≡ map_option (resigned_object keys) (get_object s.db h)
unfolding resign all_hashes Resigned
resign_lem env keys s alone u h =
    let t = wait env s in
    let hashes = all_hashes t.db in
    let same : flatten (chunks (length hashes) chunk hashes) ≡ hashes =
      chunks-flatten (length hashes) 499 hashes (omega arith) in
    let unique : Unique t.db.objects =
      subst (λ (db : Database). Unique db.objects) (sym (waited env alone s)) u in
    let distinct : Distinct hashes = hashes-Distinct t.db.objects unique in
    let result =
      chunks-Resigned env keys alone (chunks (length hashes) chunk hashes) t (0, 0)
        (subst Distinct (sym same) distinct) h in
    ap (λ (v : Shared). get_object v.db h) (resigned_or-shared env keys _)
    ∙ result
    ∙ ap
        (λ hs.
          if mem h hs
          then map_option (resigned_object keys) (get_object t.db h)
          else get_object t.db h)
        same
    ∙ ap
        (λ b.
          if b then map_option (resigned_object keys) (get_object t.db h) else get_object t.db h)
        (hashes-mem h t.db.objects)
    ∙ finish_here (is_some (find h t.db.objects)) refl
    ∙ ap (λ db. map_option (resigned_object keys) (get_object db h)) (waited env alone s)
  where
    finish_here :
        (b : Bool)
        → is_some (find h (wait env s).db.objects) ≡ b
        → (if b
            then map_option (resigned_object keys) (get_object (wait env s).db h)
            else get_object (wait env s).db h)
          ≡ map_option (resigned_object keys) (get_object (wait env s).db h)
    finish_here true e = refl
    finish_here false e =
        get_object-absent (wait env s).db h e
        ∙ sym (ap (map_option (resigned_object keys)) (get_object-absent (wait env s).db h e))
