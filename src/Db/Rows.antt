-- ===== src/Db/Rows.antt =====
-- The rows of `objects` (crates/garret-server/src/db.rs) under the statements that write them.
use garret.Common.{
  ℕ, ◌+◌, ◌≤◌, ◌≡◌, refl, ap, false, Option, none, some, List, [], ◌∷◌, map, arith, if◌then◌else◌,
  Text, text_eq, text_eq→≡, text_eq_sym, inl, inr, Bool-cases,
}
use garret.Db.Schema.{Row, find, without, sum_sizes}
use garret.Db.Objects.{upsert, map_option}

abbrev pub Unique : List Row → Type 0
Unique [] = Unit
Unique (r ∷ rows) = (find r.store_path_hash rows ≡ none) × Unique rows

abbrev pub size_of : Option Row → ℕ
size_of none = 0
size_of (some r) = r.file_size

pub find-hash :
    (h : Text) (rows : List Row) {r : Row} → find h rows ≡ some r → r.store_path_hash ≡ h
unfolding find
find-hash h [] e = cc
find-hash h (x ∷ rows) {r} e =
    ground (arith, find-hash h rows {r = r}, text_eq→≡ x.store_path_hash h)

pub find-without_self : (h : Text) (rows : List Row) → find h (without h rows) ≡ none
unfolding find without
find-without_self h [] = refl
find-without_self h (x ∷ rows) = ground (arith, find-without_self h rows)

pub find-without_ne :
    (h j : Text) (rows : List Row) → text_eq h j ≡ false → find j (without h rows) ≡ find j rows
unfolding find without
find-without_ne h j [] n = refl
find-without_ne h j (x ∷ rows) n =
    ground (
      arith,
      find-without_ne h j rows,
      text_eq→≡ x.store_path_hash h,
      text_eq→≡ x.store_path_hash j,
    )

pub find-upsert :
    (new : Row) (j : Text) (rows : List Row)
    → find j (upsert new rows) ≡ (if text_eq new.store_path_hash j then some new else find j rows)
unfolding find upsert
find-upsert new j [] = refl
find-upsert new j (x ∷ rows) = ground (
  arith,
  find-upsert new j rows,
  text_eq→≡ x.store_path_hash j,
  text_eq→≡ x.store_path_hash new.store_path_hash,
  text_eq→≡ new.store_path_hash j,
)

pub without-Unique : (h : Text) (rows : List Row) → Unique rows → Unique (without h rows)
unfolding without
without-Unique h [] u = tt
without-Unique h (x ∷ rows) u = ground (
  arith,
  without-Unique h rows u.1,
  find-without_ne h x.store_path_hash rows,
  text_eq_sym h x.store_path_hash,
)

pub upsert-Unique : (new : Row) (rows : List Row) → Unique rows → Unique (upsert new rows)
unfolding upsert find
upsert-Unique new [] u = (refl, tt)
upsert-Unique new (x ∷ rows) u = ground (
  arith,
  upsert-Unique new rows u.1,
  find-upsert new x.store_path_hash rows,
  text_eq_sym new.store_path_hash x.store_path_hash,
  text_eq→≡ x.store_path_hash new.store_path_hash,
)

without-none : (h : Text) (rows : List Row) → find h rows ≡ none → without h rows ≡ rows
unfolding find without
without-none h [] e = refl
without-none h (x ∷ rows) e = ground (arith, without-none h rows)

-- The sizes without a row, and its own.
pub sum_sizes-without :
    (h : Text) (rows : List Row)
    → Unique rows
    → sum_sizes (without h rows) + size_of (find h rows) ≡ sum_sizes rows
unfolding find without
sum_sizes-without h [] u = omega arith
sum_sizes-without h (x ∷ rows) u =
    ground (arith, sum_sizes-without h rows u.1, without-none h rows, text_eq→≡ x.store_path_hash h)

pub sum_sizes-upsert :
    (new : Row) (rows : List Row)
    → sum_sizes (upsert new rows) + size_of (find new.store_path_hash rows)
      ≡ sum_sizes rows + new.file_size
unfolding find upsert
sum_sizes-upsert new [] = omega arith
sum_sizes-upsert new (x ∷ rows) = ground (arith, sum_sizes-upsert new rows)

pub size_of-le-sum : (h : Text) (rows : List Row) → size_of (find h rows) ≤ sum_sizes rows
unfolding find
size_of-le-sum h [] = omega arith
size_of-le-sum h (x ∷ rows) = ground (arith, size_of-le-sum h rows)

-- An update of rows that leaves their keys alone is seen by every lookup.
pub find-map :
    (f : Row → Row) (h : Text) (rows : List Row)
    → ((r : Row) → (f r).store_path_hash ≡ r.store_path_hash)
    → find h (map f rows) ≡ map_option f (find h rows)
unfolding find
find-map f h [] k = refl
find-map f h (x ∷ rows) k =
    let same : text_eq (f x).store_path_hash h ≡ text_eq x.store_path_hash h =
      ap (λ t. text_eq t h) (k x) in
    elim (Bool-cases (text_eq x.store_path_hash h)) [
      | inl e ↦ rw (same, e)
      | inr e ↦ rw (same, e) (find-map f h rows k)
    ]

pub map-Unique :
    (f : Row → Row) (rows : List Row)
    → ((r : Row) → (f r).store_path_hash ≡ r.store_path_hash)
    → Unique rows
    → Unique (map f rows)
map-Unique f [] k u = tt
map-Unique f (x ∷ rows) k u =
    (rw (k x, find-map f x.store_path_hash rows k, u.0), map-Unique f rows k u.1)

pub sum_sizes-map :
    (f : Row → Row) (rows : List Row)
    → ((r : Row) → (f r).file_size ≡ r.file_size)
    → sum_sizes (map f rows) ≡ sum_sizes rows
sum_sizes-map f [] k = refl
sum_sizes-map f (x ∷ rows) k = omega (arith, k x, sum_sizes-map f rows k)
