-- ===== src/Db/Candidates.antt =====
-- The candidate list of crates/garret-server/src/db.rs (`evictable`), against `evict_object`.
use garret.Common.{
  some-injective, ℕ, zero, suc, ◌≤◌, ◌≡◌, ◌≢◌, refl, ap, subst, Bool, true, false, none, some, List,
  [], ◌∷◌, map, arith, Text, text_eq, text_eq_refl, text_eq→≡, filter, All, length, take, inl, inr,
  Option-cases, Bool-cases, All-imp, filter-All, length-take, All-filter,
}
use garret.Db.Schema.{Row, Database, find, sort_by, insert_by}
use garret.Db.Evict.{evictable_where, candidate, colder, evictable, evict_object}
use garret.Db.Rows.{Unique}
use garret.Db.Protected.{evict_object_taken, evict_object_kept, evict_object_absent}

module _ {ℓ κ} {A : Type ℓ} (before : A → A → Bool) (P : A → Type κ) where
  pub insert_by-All : (a : A) (xs : List A) → P a → All P xs → All P (insert_by before a xs)
  unfolding insert_by
  insert_by-All a [] p ps = (p, tt)
  insert_by-All a (x ∷ xs) p ps = elim (Bool-cases (before x a)) [
    | inl t ↦ rw t (ps.0, insert_by-All a xs p ps.1)
    | inr f ↦ rw f (p, ps)
  ]

  pub sort_by-All : (xs : List A) → All P xs → All P (sort_by before xs)
  unfolding sort_by
  sort_by-All [] ps = tt
  sort_by-All (x ∷ xs) ps = insert_by-All x (sort_by before xs) ps.0 (sort_by-All xs ps.1)

module _ {ℓ} {A : Type ℓ} where
  take-All {κ} : (P : A → Type κ) (n : ℕ) (xs : List A) → All P xs → All P (take n xs)
  take-All P zero xs ps = tt
  take-All P (suc n) [] ps = tt
  take-All P (suc n) (x ∷ xs) ps = (ps.0, take-All P n xs ps.1)

  pub map-All {ℓ' κ} :
      {B : Type ℓ'} (P : B → Type κ) (f : A → B) (xs : List A)
      → All (λ a. P (f a)) xs
      → All P (map f xs)
  map-All P f [] ps = tt
  map-All P f (x ∷ xs) ps = (ps.0, map-All P f xs ps.1)

  insert_by-ne : (before : A → A → Bool) (a : A) (xs : List A) → insert_by before a xs ≢ []
  unfolding insert_by
  insert_by-ne before a [] = λ e. cc
  insert_by-ne before a (x ∷ xs) = elim (Bool-cases (before x a)) [
    | inl t ↦ rw t (λ e. cc)
    | inr f ↦ rw f (λ e. cc)
  ]

-- Every row reads back under its own key.
pub listed_rows :
    (rows : List Row) → Unique rows → All (λ r. find r.store_path_hash rows ≡ some r) rows
unfolding find
listed_rows [] u = tt
listed_rows (x ∷ rows) u = (
  rw (text_eq_refl x.store_path_hash),
  All-imp (λ r f. ground (arith, f, text_eq→≡ x.store_path_hash r.store_path_hash)) rows
      (listed_rows rows u.1),
)

All-both {κ μ} :
    {A : Type 0} (P : A → Type κ) (Q : A → Type μ) (xs : List A)
    → All P xs
    → All Q xs
    → All (λ a. P a × Q a) xs
All-both P Q [] p q = tt
All-both P Q (x ∷ xs) p q = ((p.0, q.0), All-both P Q xs p.1 q.1)

take-map-empty :
    (n : ℕ) {A B : Type 0} (f : A → B) (xs : List A) → take (suc n) (map f xs) ≡ [] → xs ≡ []
take-map-empty n f [] e = refl
take-map-empty n f (x ∷ xs) e = cc

sort_by-empty :
    {A : Type 0} (before : A → A → Bool) (xs : List A) → sort_by before xs ≡ [] → xs ≡ []
unfolding sort_by
sort_by-empty before [] e = refl
sort_by-empty before (x ∷ xs) e = absurd (insert_by-ne before x (sort_by before xs) e)

filtered_out :
    (p : Row → Bool) (h : Text) (rows : List Row) {r : Row}
    → filter p rows ≡ []
    → find h rows ≡ some r
    → p r ≡ false
unfolding find
filtered_out p h [] e f = cc
filtered_out p h (x ∷ rows) {r} e f = elim (Bool-cases (p x)) [
  | inl t ↦ cc (rw t at e)
  | inr b ↦ elim (Bool-cases (text_eq x.store_path_hash h)) [
    | inl t ↦ subst (λ o. p o ≡ false) (some-injective (rw t at f)) b
    | inr n ↦ filtered_out p h rows {r = r} (rw b at e) (rw n at f)
  ]
]

-- Nothing between the query and the delete: every candidate is evicted, and frees the size that it
-- was listed with. The list is no longer than the limit asked for.
pub evictable-evict_object :
    (db : Database) (limit now : ℕ)
    → Unique db.objects
    → All (λ (c : Text × ℕ). (evict_object db c.0 now).0 ≡ some c.1) (evictable db limit now)
      × (length (evictable db limit now) ≤ limit)
unfolding evictable sort_by
evictable-evict_object db limit now u = (
  take-All _ limit _ (
      map-All _ candidate _ (
        All-imp (λ r v. ap (λ p. p.0) (evict_object_taken db r.store_path_hash now v.0 v.1)) _
          (sort_by-All colder _ _ (
            All-both (λ r. find r.store_path_hash db.objects ≡ some r)
              (λ r. evictable_where db now r ≡ true) _
              (All-filter _ (evictable_where db now) db.objects (listed_rows db.objects u))
              (filter-All (evictable_where db now) db.objects))))),
  omega (
    arith,
    length-take limit (map candidate (sort_by colder (filter (evictable_where db now) db.objects))),
  ),
)

-- GC's alarm is right: an empty list of candidates means that no row can be evicted.
pub evictable-empty :
    (db : Database) (limit now : ℕ)
    → evictable db (suc limit) now ≡ []
    → (h : Text) → evict_object db h now ≡ (none, db)
unfolding evictable sort_by
evictable-empty db limit now e h =
    let none_left =
      sort_by-empty colder (filter (evictable_where db now) db.objects)
        (take-map-empty limit candidate _ e) in
    elim (Option-cases (find h db.objects)) [
      | inl n ↦ evict_object_absent db h now n
      | inr (r, f) ↦
          evict_object_kept db h now f
            (filtered_out (evictable_where db now) h db.objects none_left f)
    ]
