-- ===== src/Browse/Cuts.antt =====
-- crates/garret-server/src/browse.rs: a page as a cut of the rows that are listed.
use garret.Common.{
  ℕ, zero, suc, ◌-◌, ◌≤◌, ◌<◌, ◌≡◌, refl, ap, Bool, true, ◌&&◌, Option, none, some, List, [], ◌∷◌,
  ◌++◌, map, arith, filter, take, length, ltb, length-append,
}
use garret.Db.Schema.{Row}
use garret.Browse.{Summary, Cursor, Page, summary_from_row, last_cursor, page_of}

-- What a client does to read the whole listing: ask for pages, each from the cursor of the one
-- before, for at most so many pages.
unfoldable pub pages : (Option Cursor → Page) → ℕ → Option Cursor → Option (List Summary)
pages ask zero cursor = none
pages ask (suc fuel) cursor = elim (ask cursor).next_cursor [
  | none ↦ some (ask cursor).objects
  | some c ↦ elim (pages ask fuel (some c)) [
    | none ↦ none
    | some rest ↦ some ((ask cursor).objects ++ rest)
  ]
]

abbrev pub cursor_of : Row → Cursor
cursor_of r = record { created_at = r.created_at; hash = r.store_path_hash }

take_through :
    (n : ℕ) (s : List Summary) (y : Summary) (t : List Summary)
    → length s ≡ n
    → take (suc n) (s ++ y ∷ t) ≡ s ++ y ∷ []
take_through zero [] y t e = refl
take_through zero (x ∷ s) y t e = absurd (omega arith)
take_through (suc n) [] y t e = absurd (omega arith)
take_through (suc n) (x ∷ s) y t e = ap (◌∷◌ x) (take_through n s y t (omega arith))

last_cursor-append :
    (x : Summary) (s : List Summary) (y : Summary)
    → last_cursor x (s ++ y ∷ []) ≡ record { created_at = y.created_at; hash = y.hash }
last_cursor-append x [] y = refl
last_cursor-append x (z ∷ s) y = last_cursor-append z s y

-- A full page, and the extra row.
pub page_full :
    (s : List Summary) (y z : Summary)
    → page_of (suc (length s)) (s ++ y ∷ z ∷ []) ≡ record {
      objects = s ++ y ∷ [];
      next_cursor = some (record { created_at = y.created_at; hash = y.hash });
    }
page_full [] y z = refl
page_full (x ∷ s) y z =
    let more : ltb (suc (suc (length s))) (suc (length (s ++ y ∷ z ∷ []))) ≡ true =
      ground (arith, length-append s (y ∷ z ∷ [])) in
    let kept = take_through (length s) s y (z ∷ []) refl in
    let less : suc (length (x ∷ s)) - 1 ≡ suc (length s) = omega arith in
    rw (more, less, kept, last_cursor-append x s y)

pub page_short :
    (limit : ℕ) (s : List Summary)
    → length s ≤ limit
    → page_of limit s ≡ record { objects = s; next_cursor = none }
page_short limit [] h = refl
page_short limit (x ∷ s) h = ground (arith)

pub take_short : (n : ℕ) (s : List Summary) → length s ≤ n → take n s ≡ s
take_short zero [] h = refl
take_short zero (x ∷ s) h = absurd (omega arith)
take_short (suc n) [] h = refl
take_short (suc n) (x ∷ s) h = ap (◌∷◌ x) (take_short n s (omega arith))

-- A list cut behind its first rows.
pub cut :
    (n : ℕ) (rows : List Row)
    → suc n < length rows
    → (front : List Row) × (x : Row) × (y : Row) × (back : List Row) × (rows
        ≡ front ++ x ∷ y ∷ back)
      × (length front ≡ n)
cut n [] h = absurd (omega arith)
cut n (x ∷ []) h = absurd (omega arith)
cut zero (x ∷ y ∷ back) h = ([], x, y, back, refl, refl)
cut (suc n) (x ∷ y ∷ rest) h =
    let (front, u, v, back, e, l) = cut n (y ∷ rest) (omega arith) in
    (x ∷ front, u, v, back, ap (◌∷◌ x) e, ap suc l)

pub take_two :
    (n : ℕ) (front : List Row) (x y : Row) (back : List Row)
    → n ≡ suc (suc (length front))
    → take n (map summary_from_row (front ++ x ∷ y ∷ back))
      ≡ map summary_from_row front ++ summary_from_row x ∷ summary_from_row y ∷ []
take_two zero front x y back e = absurd (omega arith)
take_two (suc zero) front x y back e = absurd (omega arith)
take_two (suc (suc zero)) [] x y back e = refl
take_two (suc (suc (suc n))) [] x y back e = absurd (omega arith)
take_two (suc (suc n)) (z ∷ front) x y back e =
    ap (◌∷◌ (summary_from_row z)) (take_two (suc n) front x y back (omega arith))

pub map_cut :
    (front : List Row) (x y : Row) (back : List Row)
    → (map summary_from_row front ++ summary_from_row x ∷ []) ++ map summary_from_row (y ∷ back)
      ≡ map summary_from_row (front ++ x ∷ y ∷ back)
map_cut [] x y back = refl
map_cut (z ∷ front) x y back = ap (◌∷◌ (summary_from_row z)) (map_cut front x y back)

pub filter_both :
    (p q : Row → Bool) (rows : List Row) → filter (λ r. p r && q r) rows ≡ filter q (filter p rows)
filter_both p q [] = refl
filter_both p q (r ∷ rows) = ground (arith, filter_both p q rows)
