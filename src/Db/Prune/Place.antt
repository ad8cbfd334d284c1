-- ===== src/Db/Prune/Place.antt =====
-- crates/garret-server/src/db.rs: the place of an object among those that a prune removes.
use garret.Common.{
  ℕ, zero, suc, ◌+◌, ◌<◌, ◌≡◌, refl, ap, subst, ◌∙◌, Bool, true, false, none, some, List, [], ◌∷◌,
  arith, Text, text_eq, text_eq→≡, text_eq_refl, All, any, length, get_elem?, ◌==◌, inl, inr,
  Bool-cases, Option-cases, some-injective,
}
use garret.Db.Schema.{ObjectBrief}
use garret.Db.Prune.{index, inside}

-- A listed object has the hash.
abbrev pub gone : Text → List ObjectBrief → Bool
gone h = any (λ o. text_eq o.store_path_hash h)

-- No two listed objects have one hash.
abbrev pub Distinct : List ObjectBrief → Type 0
Distinct [] = Unit
Distinct (o ∷ os) = (gone o.store_path_hash os ≡ false) × Distinct os

-- Where a hash is listed.
abbrev pub Place : List ObjectBrief → Text → ℕ → Type 0
Place doomed h d = (o : ObjectBrief) × (get_elem? doomed d ≡ some o) × (o.store_path_hash ≡ h)

pub index-Place :
    (i : ℕ) (doomed : List ObjectBrief) (h : Text) {j : ℕ}
    → index i doomed h ≡ some j
    → (d : ℕ) × (j ≡ i + d) × Place doomed h d
unfolding index
index-Place i [] h e = cc
index-Place i (o ∷ doomed) h {j} e = elim (Option-cases (index (suc i) doomed h)) [
  | inr (k, f) ↦
      let (d, same, place) = index-Place (suc i) doomed h {j = k} f in
      let found : k ≡ j = some-injective (rw f at e) in (suc d, omega (arith, same, found), place)
  | inl n ↦ elim (Bool-cases (text_eq o.store_path_hash h)) [
    | inl t ↦
        let found : i ≡ j = some-injective (rw (n, t) at e) in
        (0, omega (arith, found), (o, refl, text_eq→≡ o.store_path_hash h t))
    | inr f ↦ cc (rw (n, f) at e)
  ]
]

pub Place-gone :
    (doomed : List ObjectBrief) (h : Text) (d : ℕ) → Place doomed h d → gone h doomed ≡ true
Place-gone [] h d (o, e, s) = cc
Place-gone (x ∷ doomed) h zero (o, e, s) =
    let same : x.store_path_hash ≡ h = ap (λ p. p.store_path_hash) (some-injective e) ∙ s in
    rw (same, text_eq_refl h) refl
Place-gone (x ∷ doomed) h (suc d) (o, e, s) = ground (arith, Place-gone doomed h d (o, e, s))

pub gone-Place :
    (doomed : List ObjectBrief) (h : Text) → gone h doomed ≡ true → (d : ℕ) × Place doomed h d
gone-Place [] h m = cc
gone-Place (x ∷ doomed) h m = elim (Bool-cases (text_eq x.store_path_hash h)) [
  | inl t ↦ (0, (x, refl, text_eq→≡ x.store_path_hash h t))
  | inr f ↦ let (d, place) = gone-Place doomed h (rw f at m) in (suc d, place)
]

index-absent :
    (i : ℕ) (doomed : List ObjectBrief) (h : Text) → gone h doomed ≡ false → index i doomed h ≡ none
unfolding index
index-absent i [] h m = refl
index-absent i (x ∷ doomed) h m = ground (arith, m, index-absent (suc i) doomed h)

pub index_at :
    (i : ℕ) (doomed : List ObjectBrief) (h : Text) (d : ℕ)
    → Distinct doomed
    → Place doomed h d
    → index i doomed h ≡ some (i + d)
unfolding index
index_at i [] h d u (o, e, s) = cc
index_at i (x ∷ doomed) h zero u (o, e, s) =
    let same : x.store_path_hash ≡ h = ap (λ p. p.store_path_hash) (some-injective e) ∙ s in
    let later : index (suc i) doomed h ≡ none =
      index-absent (suc i) doomed h (subst (λ t. gone t doomed ≡ false) same u.0) in
    rw (later, index, same, text_eq_refl h) (ap some (omega arith))
index_at i (x ∷ doomed) h (suc d) u (o, e, s) =
    rw (index_at (suc i) doomed h d u.1 (o, e, s), index) (ap some (omega arith))

pub Place-lt : (doomed : List ObjectBrief) (h : Text) (d : ℕ) → Place doomed h d → d < length doomed
Place-lt [] h d (o, e, s) = cc
Place-lt (x ∷ doomed) h zero p = omega arith
Place-lt (x ∷ doomed) h (suc d) p = omega (arith, Place-lt doomed h d p)

index_lt :
    (doomed : List ObjectBrief) (h : Text) {j : ℕ} → index 0 doomed h ≡ some j → j < length doomed
index_lt doomed h {j} e =
    let (d, same, place) = index-Place 0 doomed h {j = j} e in
    omega (arith, same, Place-lt doomed h d place)

pub inside-All :
    (doomed : List ObjectBrief) (i : ℕ) (hs : List Text)
    → All (λ j. j < length doomed) (inside doomed i hs)
unfolding inside
inside-All doomed i [] = tt
inside-All doomed i (h ∷ hs) = elim (Option-cases (index 0 doomed h)) [
  | inl n ↦ rw n (inside-All doomed i hs)
  | inr (j, e) ↦ elim (Bool-cases (j == i)) [
    | inl t ↦ rw (e, t) (inside-All doomed i hs)
    | inr f ↦ rw (e, f) (index_lt doomed h {j = j} e, inside-All doomed i hs)
  ]
]
