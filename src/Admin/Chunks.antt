-- ===== src/Admin/Chunks.antt =====
-- crates/garret-pusher/src/admin.rs: one chunk of a resign, and its rows.
use garret.Common.{
  Distinct, mem-append, mem, mem_same, bind-eq-some, ℕ, zero, suc, ◌≤◌, ◌≡◌, refl, sym, ap, subst,
  ◌∙◌, ◌⊎◌, Bool, true, false, Option, none, some, List, [], ◌∷◌, ◌++◌, arith, if◌then◌else◌, Text,
  text_eq, text_eq→≡, text_eq_refl, text_eq_sym, length, length-drop, take, drop, take-append-drop,
  inl, inr, Bool-cases, Option-cases, some-injective,
}
use garret.Db.Schema.{Object, Database}
use garret.Db.Objects.{get_object, update_sigs, map_option}
use garret.Db.Prune.{chunks}
use garret.Narinfo.{sign, verify}
use garret.Fsck.{filter_map}
use garret.Admin.Commands.{Keys, Tally, texts_eq, updated_one, tallied, classify_sigs, update_all}
use garret.Admin.Sigs.{
  with_sigs, resigned_object, texts_eq→≡, get_object-hash, get_object-update_sigs, ResignedOf,
  filter_map-none, filter_map-some, if_id, mem-apart, if_same, sigs_if-other,
}

module _ (keys : Keys) (db0 : Database) where
  one_absent :
      (h : Text) (hs : List Text) (db1 after : Database)
      → get_object db0 h ≡ none
      → get_object db1 h ≡ none
      → ResignedOf keys hs db0 db1 after
      → ResignedOf keys (h ∷ hs) db0 db1 after
  one_absent h hs db1 after n m r j = elim (Bool-cases (text_eq j h)) [
    | inr f ↦ r j ∙ ground (arith, f)
    | inl t ↦
        subst
          (λ k. get_object after k ≡ (
            if mem k (h ∷ hs)
            then map_option (resigned_object keys) (get_object db0 k)
            else get_object db1 k))
          (sym (text_eq→≡ j h t)) (r h ∙ rw (text_eq_refl h, n, m) (if_same (mem h hs) none))
  ]

  one_resigned :
      (h : Text) (hs : List Text) (db1 db2 after : Database) {o : Object}
      → mem h hs ≡ false
      → get_object db0 h ≡ some o
      → get_object db1 h ≡ some o
      → get_object db2 h ≡ some (resigned_object keys o)
      → ((j : Text) → text_eq j h ≡ false → get_object db2 j ≡ get_object db1 j)
      → ResignedOf keys hs db0 db2 after
      → ResignedOf keys (h ∷ hs) db0 db1 after
  one_resigned h hs db1 db2 after {o} new n m here there r j = elim (Bool-cases (text_eq j h)) [
    | inr f ↦ r j ∙ ground (arith, f, there j)
    | inl t ↦
        subst
          (λ k. get_object after k ≡ (
            if mem k (h ∷ hs)
            then map_option (resigned_object keys) (get_object db0 k)
            else get_object db1 k))
          (sym (text_eq→≡ j h t)) (r h ∙ rw (text_eq_refl h, new, n) here)
  ]

  -- One object that some key vouches for: the updates put its new signatures there.
  updated_one-resigned :
      (h : Text) (o : Object) (sigs : List Text) (t : Tally) (db1 : Database)
      → get_object db1 h ≡ some o
      → o.store_path_hash ≡ h
      → (db2 : Database) × (update_all (updated_one o sigs t).updates db1
          ≡ update_all t.updates db2)
        × (get_object db2 h ≡ some (record o { sigs = sigs }))
        × ((j : Text) → text_eq j h ≡ false → get_object db2 j ≡ get_object db1 j)
  updated_one-resigned h o sigs t db1 here same = elim (Bool-cases (texts_eq sigs o.sigs)) [
    | inl eq ↦ (
      db1,
      rw eq refl,
      here ∙ ap (λ s. some (record o { sigs = s })) (sym (texts_eq→≡ sigs o.sigs eq)),
      λ j f. refl,
    )
    | inr ne ↦ (
      update_sigs db1 o.store_path_hash sigs,
      rw ne refl,
      get_object-update_sigs db1 o.store_path_hash h sigs ∙ rw (here, same, text_eq_refl h) refl,
      λ j f.
          get_object-update_sigs db1 o.store_path_hash j sigs
          ∙ sigs_if-other o.store_path_hash j sigs (get_object db1 j)
              (ap (λ k. text_eq k j) same ∙ text_eq_sym h j ∙ f),
    )
  ]

  chunk_step :
      (h : Text) (hs : List Text) {o : Object} (b : Bool)
      → get_object db0 h ≡ some o
      → verify o keys.store_dir keys.checkers ≡ b
      → classify_sigs keys (filter_map (get_object db0) (h ∷ hs))
        ≡ tallied keys b o (classify_sigs keys (filter_map (get_object db0) hs))
  unfolding classify_sigs
  chunk_step h hs {o} b n v =
      ap (classify_sigs keys) (filter_map-some (get_object db0) h hs {o = o} n)
      ∙ ap (λ c. tallied keys c o (classify_sigs keys (filter_map (get_object db0) hs))) v

  -- The updates of a chunk, applied to a database in which the named objects are as they were read.
  pub chunk_resigned :
      (hashes : List Text) (db1 : Database) {t : Tally}
      → Distinct hashes
      → ((h : Text) → mem h hashes ≡ true → get_object db1 h ≡ get_object db0 h)
      → classify_sigs keys (filter_map (get_object db0) hashes) ≡ some t
      → ResignedOf keys hashes db0 db1 (update_all t.updates db1)
  unfolding classify_sigs
  chunk_resigned [] db1 {t} d same e =
      λ h. ap (λ u. get_object (update_all u.updates db1) h) (sym (some-injective e))
  chunk_resigned (h ∷ hs) db1 {t} d same e =
      let first : get_object db1 h ≡ get_object db0 h = same h (ground (arith, text_eq_refl h)) in
      elim (Option-cases (get_object db0 h)) [
        | inl n ↦ one_absent h hs db1 (update_all t.updates db1) n (first ∙ n) (
            chunk_resigned hs db1 {t = t} d.1 (λ j m. same j (ground (arith, m)))
              (sym (ap (classify_sigs keys) (filter_map-none (get_object db0) h hs n)) ∙ e))
        | inr (o, n) ↦ elim (Bool-cases (verify o keys.store_dir keys.checkers)) [
          | inr f ↦
              let (t', rest, result) =
                bind-eq-some (classify_sigs keys (filter_map (get_object db0) hs)) _
                  (sym (chunk_step h hs {o = o} false n f) ∙ e) in
              one_resigned h hs db1 db1 (update_all t.updates db1) d.0 n (first ∙ n)
                (first ∙ n ∙ rw f refl) (λ j ne. refl)
                (subst (λ u. ResignedOf keys hs db0 db1 (update_all u.updates db1))
                  (some-injective result)
                  (chunk_resigned hs db1 {t = t'} d.1 (λ j m. same j (ground (arith, m))) rest))
          | inl v ↦
              let (sigs, signed, after) =
                bind-eq-some (sign o keys.store_dir keys.signers) _
                  (sym (chunk_step h hs {o = o} true n v) ∙ e) in
              let (t', rest, result) =
                bind-eq-some (classify_sigs keys (filter_map (get_object db0) hs)) _ after in
              let (db2, same2, here, others) =
                updated_one-resigned h o sigs t' db1 (first ∙ n)
                  (get_object-hash db0 h {o = o} n) in
              one_resigned h hs db1 db2 (update_all t.updates db1) d.0 n (first ∙ n)
                (here ∙ rw (v, signed) refl) others
                (subst (ResignedOf keys hs db0 db2)
                  (sym same2 ∙ ap (λ u. update_all u.updates db1) (some-injective result))
                  (chunk_resigned hs db2 {t = t'} d.1
                    (λ j m. others j (mem-apart j h hs m d.0) ∙ same j (ground (arith, m))) rest))
        ]
      ]

abbrev pub flatten : List (List Text) → List Text
flatten [] = []
flatten (x ∷ xs) = x ++ flatten xs

pub Distinct-append :
    (xs ys : List Text)
    → Distinct (xs ++ ys)
    → Distinct xs × Distinct ys × ((h : Text) → mem h xs ≡ true → mem h ys ≡ false)
Distinct-append [] ys d = (tt, d, λ h m. cc)
Distinct-append (x ∷ xs) ys d =
    let rest = Distinct-append xs ys d.1 in
    (
      (ground (arith, d.0, mem-append x xs ys), rest.0),
      rest.1,
      λ h m. ground (arith, m, rest.2 h, d.0, mem-append x xs ys, mem_same h x ys),
    )

pub chunks-flatten :
    (fuel m : ℕ) (xs : List Text) → length xs ≤ fuel → flatten (chunks fuel (suc m) xs) ≡ xs
unfolding chunks
chunks-flatten zero m [] b = refl
chunks-flatten zero m (x ∷ xs) b = absurd (omega (arith, b))
chunks-flatten (suc fuel) m [] b = refl
chunks-flatten (suc fuel) m (x ∷ xs) b =
    ap (λ c. take (suc m) (x ∷ xs) ++ c)
      (chunks-flatten fuel m (drop (suc m) (x ∷ xs)) (omega (arith, b, length-drop m xs)))
    ∙ take-append-drop (suc m) (x ∷ xs)

sign-none : (o : Object) (dir : Text) (ks : List (Text → Text)) → sign o dir ks ≡ none → ks ≡ []
unfolding sign
sign-none o dir [] e = refl
sign-none o dir (k ∷ ks) e = cc

tallied-none :
    (keys : Keys) (b : Bool) (o : Object) (rest : Option Tally)
    → tallied keys b o rest ≡ none
    → (rest ≡ none) ⊎ (sign o keys.store_dir keys.signers ≡ none)
tallied-none keys b o none e = inl refl
tallied-none keys false o (some t) e = cc
tallied-none keys true o (some t) e = elim (Option-cases (sign o keys.store_dir keys.signers)) [
  | inl n ↦ inr n
  | inr (sigs, n) ↦ cc (rw n at e)
]

pub no_signers :
    (keys : Keys) (objects : List Object) → classify_sigs keys objects ≡ none → keys.signers ≡ []
unfolding classify_sigs sign
no_signers keys [] e = cc
no_signers keys (o ∷ objects) e =
    elim (tallied-none keys (verify o keys.store_dir keys.checkers) o (classify_sigs keys objects)
      e) [ inl n ↦ no_signers keys objects n | inr n ↦ sign-none o keys.store_dir keys.signers n ]

pub unsigned :
    (keys : Keys)
    → keys.signers ≡ []
    → (o : Option Object) → map_option (resigned_object keys) o ≡ o
unfolding sign
unsigned keys e none = refl
unsigned keys e (some o) = ap some (
    ap
      (λ ks.
        if verify o keys.store_dir keys.checkers then with_sigs o (sign o keys.store_dir ks) else o)
      e
    ∙ if_id (verify o keys.store_dir keys.checkers) o)
