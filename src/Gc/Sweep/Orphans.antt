-- ===== src/Gc/Sweep/Orphans.antt =====
-- What the orphan sweep of crates/garret-pusher/src/gc.rs claims.
use garret.Common.{
  mem, ℕ, ◌≡◌, refl, sym, ap, ◌∙◌, Bool, true, false, not, ◌&&◌, ◌||◌, none, List, [], ◌∷◌, ◌++◌,
  map, arith, if◌then◌else◌, Text, text_eq, text_eq→≡, text_eq_sym, text_eq_refl, any, filter,
  is_some, leb, inl, inr, Bool-cases, Option-cases, All, All-imp, All-append, length,
}
use garret.InFlight.{State, Claim, contains, drop_claim}
use garret.InFlight.Claims.{delete, lookup, remove, lookup-remove_self, lookup-remove_ne}
use garret.InFlight.Counted.{claim_delete_lem}
use garret.Db.Schema.{Database}
use garret.Db.Objects.{exists}
use garret.Deletion.{Deletion, nothing, queue_blob, hold}
use garret.Deletion.Claims.{claimed, claimed-append}
use garret.Storage.{Blob, is_orphan, orphan_hashes}
use garret.Gc.Sweep.{sweep_each, claim_orphans}

-- What is claimed was asked for and has no row.
abbrev Fresh : Database → List Text → Claim → Type 0
Fresh db hashes c = (exists db c.hash ≡ false) × (mem c.hash hashes ≡ true)

sweep_each-Fresh :
    (meanwhile : ℕ → State → State) (db : Database) (all hashes : List Text) (a : State × Deletion)
    → All (λ h. mem h all ≡ true) hashes
    → All (Fresh db all) a.1.claims
    → All (Fresh db all) (sweep_each meanwhile db hashes a).1.claims
unfolding sweep_each hold queue_blob
sweep_each-Fresh meanwhile db all [] a asked fresh = fresh
sweep_each-Fresh meanwhile db all (hash ∷ hashes) a asked fresh =
    let s = meanwhile (length hashes) a.0 in
    elim (Option-cases (lookup hash s.claims)) [
      | inr (k, e) ↦
          rw ((claim_delete_lem s hash).0 k e, sweep_each)
            (sweep_each-Fresh meanwhile db all hashes (s, a.1) asked.1 fresh)
      | inl n ↦
          let t : State = record s { claims = (hash, delete) ∷ s.claims } in
          let c : Claim = record { hash = hash } in
          elim (Bool-cases (exists db hash)) [
            | inl there ↦
                rw ((claim_delete_lem s hash).1 n, sweep_each, there)
                  (sweep_each-Fresh meanwhile db all hashes (drop_claim t c, a.1) asked.1 fresh)
            | inr gone ↦
                rw ((claim_delete_lem s hash).1 n, sweep_each, gone)
                  (sweep_each-Fresh meanwhile db all hashes (t, hold a.1 c) asked.1
                    (All-append (Fresh db all) a.1.claims (c ∷ []) fresh ((gone, asked.0), tt)))
          ]
    ]

-- An old blob with this hash, neither known nor in flight.
abbrev pub orphaned : List Blob → List Text → State → ℕ → Text → Bool
orphaned blobs known s grace h =
    any (λ (b : Blob). text_eq b.hash h && leb grace b.age) blobs
    && not (mem h known)
    && not (contains s h)

orphaned_cons :
    (h : Text) (b : Blob) (blobs : List Blob) (known : List Text) (s : State) (grace : ℕ)
    (rest : Bool)
    → rest ≡ orphaned blobs known s grace h
    → (if is_orphan known s grace b then text_eq h b.hash || rest else rest)
      ≡ orphaned (b ∷ blobs) known s grace h
orphaned_cons h b blobs known s grace rest e = elim (Bool-cases (text_eq b.hash h)) [
  | inr n ↦ ground (arith, e, text_eq_sym h b.hash)
  | inl t ↦
      let same = text_eq→≡ b.hash h t in
      let m : mem b.hash known ≡ mem h known = ap (λ x. mem x known) same in
      let c : contains s b.hash ≡ contains s h = ap (contains s) same in
      ground (arith, e, text_eq_sym h b.hash, m, c)
]

if-mem :
    (h : Text) (t : Bool) (b : Blob) (bs : List Blob)
    → mem h (map (λ (x : Blob). x.hash) (if t then b ∷ bs else bs)) ≡ (
        if t
        then text_eq h b.hash || mem h (map (λ (x : Blob). x.hash) bs)
        else mem h (map (λ (x : Blob). x.hash) bs))
if-mem h true b bs = refl
if-mem h false b bs = refl

mem-orphan_hashes :
    (h : Text) (blobs : List Blob) (known : List Text) (s : State) (grace : ℕ)
    → mem h (orphan_hashes blobs known s grace) ≡ orphaned blobs known s grace h
unfolding orphan_hashes
mem-orphan_hashes h [] known s grace = refl
mem-orphan_hashes h (b ∷ blobs) known s grace =
    if-mem h (is_orphan known s grace b) b (filter (is_orphan known s grace) blobs)
    ∙ orphaned_cons h b blobs known s grace _ (mem-orphan_hashes h blobs known s grace)

All-mem :
    (hashes all : List Text)
    → ((h : Text) → mem h hashes ≡ true → mem h all ≡ true)
    → All (λ h. mem h all ≡ true) hashes
All-mem [] all f = tt
All-mem (h ∷ hashes) all f =
    (f h (ground (arith, text_eq_refl h)), All-mem hashes all (λ j m. f j (ground arith)))

-- Whatever happens to the in-flight map meanwhile, the sweep claims only paths that have no row, have
-- an old blob, were not known and were not in flight when it chose them.
pub claim_orphans-orphaned :
    (meanwhile : ℕ → State → State) (db : Database) (s : State) (blobs : List Blob)
    (known : List Text) (grace : ℕ)
    → All
        (λ (c : Claim). (exists db c.hash ≡ false) × (orphaned blobs known s grace c.hash ≡ true))
        (claim_orphans meanwhile db s blobs known grace).1.claims
unfolding claim_orphans
claim_orphans-orphaned meanwhile db s blobs known grace =
    let all = orphan_hashes blobs known s grace in
    All-imp (λ c f. (f.0, sym (mem-orphan_hashes c.hash blobs known s grace) ∙ f.1)) _
      (sweep_each-Fresh meanwhile db all all (s, nothing) (All-mem all all (λ h m. m)) tt)

asked_again :
    (found same rest gone held : Bool)
    → (same ≡ true → held ≡ true)
    → found ≡ (held || (rest && gone))
    → found ≡ (held || ((same || rest) && gone))
asked_again found same rest gone held h e = ground (arith, h)

row_there :
    {found : Bool} (at_hash same rest at_h held : Bool)
    → at_hash ≡ true
    → (same ≡ true → at_h ≡ at_hash)
    → found ≡ (held || (rest && not at_h))
    → found ≡ (held || ((same || rest) && not at_h))
row_there at_hash same rest at_h held there move e = ground (arith, move)

row_gone :
    {found : Bool} (at_hash same rest at_h held more : Bool)
    → at_hash ≡ false
    → (same ≡ true → at_h ≡ at_hash)
    → more ≡ (held || same)
    → found ≡ (more || (rest && not at_h))
    → found ≡ (held || ((same || rest) && not at_h))
row_gone at_hash same rest at_h held more gone move m e = ground (arith, move)

dropped :
    (s : State) (hash h : Text)
    → lookup hash s.claims ≡ none
    → is_some (
        lookup h
          (drop_claim
            (record s { claims = (hash, delete) ∷ s.claims })
            (record { hash = hash })).claims)
      ≡ is_some (lookup h s.claims)
unfolding drop_claim remove lookup
dropped s hash h n = ground (
  arith,
  n,
  text_eq_refl hash,
  lookup-remove_self hash s.claims,
  lookup-remove_ne hash h s.claims,
  text_eq→≡ hash h,
)

taken_now :
    (s : State) (hash h : Text) (claims : List Claim)
    → is_some (lookup h s.claims) ≡ claimed claims h
    → is_some (lookup h ((hash, delete) ∷ s.claims))
      ≡ claimed (claims ++ record { hash = hash } ∷ []) h
unfolding lookup
taken_now s hash h claims e = ground (arith, claimed-append claims (record { hash = hash }) h)

sweep_each-claimed :
    (meanwhile : ℕ → State → State) (db : Database) (h : Text)
    → ((n : ℕ) (s : State) → meanwhile n s ≡ s)
    → (hashes : List Text) (a : State × Deletion)
    → is_some (lookup h a.0.claims) ≡ claimed a.1.claims h
    → claimed (sweep_each meanwhile db hashes a).1.claims h
      ≡ (claimed a.1.claims h || (mem h hashes && not (exists db h)))
unfolding sweep_each hold queue_blob
sweep_each-claimed meanwhile db h calm [] a inv = ground arith
sweep_each-claimed meanwhile db h calm (hash ∷ hashes) a inv =
    let s = meanwhile (length hashes) a.0 in
    let now : is_some (lookup h s.claims) ≡ claimed a.1.claims h =
      ap (λ (x : State). is_some (lookup h x.claims)) (calm (length hashes) a.0) ∙ inv in
    let move = text_eq→≡ h hash in
    elim (Option-cases (lookup hash s.claims)) [
      | inr (k, e) ↦
          rw ((claim_delete_lem s hash).0 k e, sweep_each)
            (asked_again _ (text_eq h hash) (mem h hashes) (not (exists db h))
              (claimed a.1.claims h)
              (λ t. sym now ∙ ap (λ x. is_some (lookup x s.claims)) (move t) ∙ ap is_some e)
              (sweep_each-claimed meanwhile db h calm hashes (s, a.1) now))
      | inl n ↦
          let t : State = record s { claims = (hash, delete) ∷ s.claims } in
          let c : Claim = record { hash = hash } in
          elim (Bool-cases (exists db hash)) [
            | inl there ↦
                rw ((claim_delete_lem s hash).1 n, sweep_each, there)
                  (row_there (exists db hash) (text_eq h hash) (mem h hashes) (exists db h)
                    (claimed a.1.claims h) there (λ q. ap (exists db) (move q))
                    (sweep_each-claimed meanwhile db h calm hashes (drop_claim t c, a.1)
                      (dropped s hash h n ∙ now)))
            | inr gone ↦
                rw ((claim_delete_lem s hash).1 n, sweep_each, gone)
                  (row_gone (exists db hash) (text_eq h hash) (mem h hashes) (exists db h)
                    (claimed a.1.claims h) (claimed (a.1.claims ++ c ∷ []) h) gone
                    (λ q. ap (exists db) (move q))
                    (claimed-append a.1.claims c h
                      ∙ ap (λ b. claimed a.1.claims h || b) (text_eq_sym hash h))
                    (sweep_each-claimed meanwhile db h calm hashes (t, hold a.1 c)
                      (taken_now s hash h a.1.claims now)))
          ]
    ]

-- With nothing else at work on the in-flight map, the sweep claims every orphan that has no row:
-- of the paths that are free, exactly those.
pub claim_orphans-claimed :
    (meanwhile : ℕ → State → State) (db : Database) (s : State) (blobs : List Blob)
    (known : List Text) (grace : ℕ) (h : Text)
    → ((n : ℕ) (t : State) → meanwhile n t ≡ t)
    → contains s h ≡ false
    → claimed (claim_orphans meanwhile db s blobs known grace).1.claims h
      ≡ (orphaned blobs known s grace h && not (exists db h))
unfolding claim_orphans contains
claim_orphans-claimed meanwhile db s blobs known grace h calm free =
    sweep_each-claimed meanwhile db h calm (orphan_hashes blobs known s grace) (s, nothing) free
    ∙ ap (λ b. b && not (exists db h)) (mem-orphan_hashes h blobs known s grace)
