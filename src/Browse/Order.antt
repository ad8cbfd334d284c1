-- ===== src/Browse/Order.antt =====
-- The order of the listing of crates/garret-server/src/browse.rs, and sorting by it.
use garret.Common.{
  ℕ, ◌≡◌, refl, sym, inl, inr, Bool, true, false, List, [], ◌∷◌, ◌++◌, arith, if◌then◌else◌, Text,
  text_eq, text_lt, filter, All, All-imp, Bool-cases, none, All-filter, filter_same,
}
use garret.Db.Schema.{Row, sort_by, insert_by, find}
use garret.Db.Rows.{Unique}
use garret.Db.Candidates.{insert_by-All, sort_by-All}
use garret.Browse.{precedes, key, newest}

text_lt_irrefl : (a : Text) → text_lt a a ≡ false
unfolding text_lt
text_lt_irrefl [] = refl
text_lt_irrefl (x ∷ a) = ground (arith, text_lt_irrefl a)

text_lt_trans : (a b c : Text) → text_lt a b ≡ true → text_lt b c ≡ true → text_lt a c ≡ true
unfolding text_lt
text_lt_trans a b [] h k = cc
text_lt_trans [] b (z ∷ c) h k = refl
text_lt_trans (x ∷ a) [] (z ∷ c) h k = cc
text_lt_trans (x ∷ a) (y ∷ b) (z ∷ c) h k = ground (arith, text_lt_trans a b c)

text_lt-total : (a b : Text) → text_lt a b ≡ false → text_lt b a ≡ false → text_eq a b ≡ true
unfolding text_lt text_eq
text_lt-total [] [] h k = refl
text_lt-total [] (y ∷ b) h k = cc
text_lt-total (x ∷ a) [] h k = cc
text_lt-total (x ∷ a) (y ∷ b) h k = ground (arith, text_lt-total a b)

pub precedes_irrefl : (a : ℕ × Text) → precedes a a ≡ false
unfolding precedes
precedes_irrefl a = ground (arith, text_lt_irrefl a.1)

pub precedes_trans :
    (a b c : ℕ × Text) → precedes a b ≡ true → precedes b c ≡ true → precedes a c ≡ true
unfolding precedes
precedes_trans a b c h k = ground (arith, text_lt_trans a.1 b.1 c.1)

pub precedes-asym : (a b : ℕ × Text) → precedes a b ≡ true → precedes b a ≡ false
precedes-asym a b h = ground (arith, precedes_trans a b a, precedes_irrefl a)

pub precedes-total :
    (a b : ℕ × Text) → text_eq a.1 b.1 ≡ false → precedes a b ≡ false → precedes b a ≡ true
unfolding precedes
precedes-total a b n h = ground (arith, text_lt-total a.1 b.1)

-- Every row stands before those behind it.
abbrev pub Sorted : List Row → Type 0
Sorted [] = Unit
Sorted (x ∷ xs) = All (λ y. newest x y ≡ true) xs × Sorted xs

abbrev Apart : Text → List Row → Type 0
Apart h = All λ y. text_eq y.store_path_hash h ≡ false

find-Apart : (h : Text) (rows : List Row) → find h rows ≡ none → Apart h rows
unfolding find
find-Apart h [] e = tt
find-Apart h (r ∷ rows) e = ground (arith, find-Apart h rows)

Apart-find : (h : Text) (rows : List Row) → Apart h rows → find h rows ≡ none
unfolding find
Apart-find h [] a = refl
Apart-find h (r ∷ rows) a = ground (arith, Apart-find h rows a.1)

pub filter-Unique : (p : Row → Bool) (rows : List Row) → Unique rows → Unique (filter p rows)
filter-Unique p [] u = tt
filter-Unique p (r ∷ rows) u =
    let h = r.store_path_hash in
    let apart = Apart-find h (filter p rows) (All-filter _ p rows (find-Apart h rows u.0)) in
    ground (arith, filter-Unique p rows u.1, apart)

insert-Sorted :
    (a : Row) (xs : List Row)
    → Apart a.store_path_hash xs
    → Sorted xs
    → Sorted (insert_by newest a xs)
unfolding insert_by
insert-Sorted a [] n s = (tt, tt)
insert-Sorted a (x ∷ xs) n s = elim (Bool-cases (newest x a)) [
  | inl t ↦
      rw t (insert_by-All newest (λ y. newest x y ≡ true) a xs t s.0, insert-Sorted a xs n.1 s.1)
  | inr f ↦
      let first : newest a x ≡ true = precedes-total (key x) (key a) n.0 f in
      rw f ((first, All-imp (λ y e. precedes_trans (key a) (key x) (key y) first e) xs s.0), s)
]

pub sort_by-Sorted : (rows : List Row) → Unique rows → Sorted (sort_by newest rows)
unfolding sort_by
sort_by-Sorted [] u = tt
sort_by-Sorted (r ∷ rows) u =
    insert-Sorted r (sort_by newest rows)
      (sort_by-All newest _ rows (find-Apart r.store_path_hash rows u.0)) (sort_by-Sorted rows u.1)

insert_first :
    (a : Row) (ys : List Row) → All (λ y. newest y a ≡ false) ys → insert_by newest a ys ≡ a ∷ ys
unfolding insert_by
insert_first a [] n = refl
insert_first a (y ∷ ys) n = rw (n.0)

insert-filter :
    (p : Row → Bool) (a : Row) (xs : List Row)
    → Apart a.store_path_hash xs
    → Sorted xs
    → filter p (insert_by newest a xs)
      ≡ (if p a then insert_by newest a (filter p xs) else filter p xs)
unfolding insert_by
insert-filter p a [] n s = refl
insert-filter p a (x ∷ xs) n s = elim (Bool-cases (newest x a)) [
  | inl t ↦ ground (arith, insert-filter p a xs n.1 s.1)
  | inr f ↦
      let first : newest a x ≡ true = precedes-total (key x) (key a) n.0 f in
      let behind : All (λ y. newest y a ≡ false) (x ∷ xs) = (
        f,
        All-imp
            (λ y e. precedes-asym (key a) (key y) (precedes_trans (key a) (key x) (key y) first e))
            xs s.0,
      ) in
      elim (Bool-cases (p a)) [
        | inr g ↦ rw (f, g)
        | inl g ↦
            rw (f, g) (sym (insert_first a (filter p (x ∷ xs)) (All-filter _ p (x ∷ xs) behind)))
      ]
]

-- The rows that a filter keeps are listed in the order that they have among all rows.
pub sort_by-filter :
    (p : Row → Bool) (rows : List Row)
    → Unique rows
    → sort_by newest (filter p rows) ≡ filter p (sort_by newest rows)
unfolding sort_by
sort_by-filter p [] u = refl
sort_by-filter p (r ∷ rows) u =
    let rest = sort_by-filter p rows u.1 in
    let step =
      insert-filter p r (sort_by newest rows)
        (sort_by-All newest _ rows (find-Apart r.store_path_hash rows u.0))
        (sort_by-Sorted rows u.1) in
    elim (Bool-cases (p r)) [
      | inl t ↦ rw (t, rest) (sym (rw t at step))
      | inr f ↦ rw (f, rest) (sym (rw f at step))
    ]

-- Of a sorted list, the rows after one of it are those that stand behind it.
pub filter_behind :
    (front : List Row) (x : Row) (back : List Row)
    → Sorted (front ++ x ∷ back)
    → filter (λ r. precedes (key x) (key r)) (front ++ x ∷ back) ≡ back
filter_behind [] x back s = rw (precedes_irrefl (key x)) (filter_same _ back s.0)
filter_behind (a ∷ front) x back s =
    rw (precedes-asym (key a) (key x) (All-middle _ front x back s.0))
      (filter_behind front x back s.1)
  where
    All-middle :
        (P : Row → Type 0) (front : List Row) (x : Row) (back : List Row)
        → All P (front ++ x ∷ back)
        → P x
    All-middle P [] x back all = all.0
    All-middle P (y ∷ front) x back all = All-middle P front x back all.1
