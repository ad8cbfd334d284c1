-- ===== src/Db/Prune/Kahn.antt =====
-- crates/garret-server/src/db.rs: the `while let` loop of `referrers_first`, on any edges.
use garret.Common.{
  ℕ, zero, suc, ◌+◌, ◌-◌, ◌≤◌, ◌<◌, ◌≡◌, refl, sym, ap, ◌∙◌, List, [], ◌∷◌, ◌++◌, arith,
  if◌then◌else◌, All, length, ltb, ◌==◌, inl, inr, Bool-cases,
}
use garret.Db.Prune.{nth, row, update, zeros, credit, count, release}

-- How often `j` stands in a list.
abbrev pub times : ℕ → List ℕ → ℕ
times j [] = 0
times j (x ∷ xs) = (if x == j then 1 else 0) + times j xs

abbrev pub sign : ℕ → ℕ
sign zero = 0
sign (suc n) = 1

-- The edges to `j` from the rows, the first of which is row `k`, that `order` does not have.
abbrev pub owed : ℕ → List ℕ → ℕ → List (List ℕ) → ℕ
owed k order j [] = 0
owed k order j (js ∷ rows) =
    (if times k order == 0 then times j js else 0) + owed (suc k) order j rows

-- In an order, every index comes after those with an edge to it.
abbrev pub IsSorted : List (List ℕ) → List ℕ → List ℕ → Type 0
IsSorted refs before [] = Unit
IsSorted refs before (i ∷ order) =
    ((k : ℕ) → 1 ≤ times i (row refs k) → 1 ≤ times k before)
    × IsSorted refs (before ++ i ∷ []) order

pub times-append : (j : ℕ) (xs ys : List ℕ) → times j (xs ++ ys) ≡ times j xs + times j ys
times-append j [] ys = omega arith
times-append j (x ∷ xs) ys = omega (arith, times-append j xs ys)

nth-update_pred :
    (j k : ℕ) (xs : List ℕ)
    → nth (update (λ n. n - 1) j xs) k ≡ (if j == k then nth xs k - 1 else nth xs k)
nth-update_pred j k [] = ground arith
nth-update_pred zero zero (x ∷ xs) = ground arith
nth-update_pred zero (suc k) (x ∷ xs) = ground arith
nth-update_pred (suc j) zero (x ∷ xs) = ground arith
nth-update_pred (suc j) (suc k) (x ∷ xs) = nth-update_pred j k xs ∙ ground arith

pub release-nth :
    (j : ℕ) (js : List ℕ) (s : List ℕ × List ℕ) → nth (release js s).0 j ≡ nth s.0 j - times j js
unfolding release
release-nth j [] s = omega arith
release-nth j (i ∷ js) s =
    let left = update (λ n. n - 1) i s.0 in
    release-nth j js (left, if nth left i == 0 then i ∷ s.1 else s.1)
    ∙ ground (arith, nth-update_pred i j s.0)

-- An index is ready, once, when the last edge to it goes.
pub release-times :
    (j : ℕ) (js : List ℕ) (s : List ℕ × List ℕ)
    → ((k : ℕ) → times k js ≤ nth s.0 k)
    → times j (release js s).1 + sign (nth (release js s).0 j) ≡ times j s.1 + sign (nth s.0 j)
unfolding release
release-times j [] s b = refl
release-times j (i ∷ js) s b =
    let left = update (λ n. n - 1) i s.0 in
    release-times j js (left, if nth left i == 0 then i ∷ s.1 else s.1)
      (λ k. ground (arith, b k, nth-update_pred i k s.0))
    ∙ ground (arith, b i, b j, nth-update_pred i j s.0, nth-update_pred i i s.0)

nth-update-suc :
    (i j : ℕ) (xs : List ℕ)
    → j < length xs
    → nth (update suc i xs) j ≡ (if i == j then suc (nth xs j) else nth xs j)
nth-update-suc i j [] b = absurd (omega (arith, b))
nth-update-suc zero zero (x ∷ xs) b = ground arith
nth-update-suc zero (suc j) (x ∷ xs) b = ground arith
nth-update-suc (suc i) zero (x ∷ xs) b = ground arith
nth-update-suc (suc i) (suc j) (x ∷ xs) b = nth-update-suc i j xs (omega (arith, b)) ∙ ground arith

length-update : (f : ℕ → ℕ) (i : ℕ) (xs : List ℕ) → length (update f i xs) ≡ length xs
length-update f i [] = refl
length-update f zero (x ∷ xs) = refl
length-update f (suc i) (x ∷ xs) = omega (arith, length-update f i xs)

credit-nth : (j : ℕ) (js xs : List ℕ) → j < length xs → nth (credit js xs) j ≡ nth xs j + times j js
unfolding credit
credit-nth j [] xs b = omega arith
credit-nth j (i ∷ js) xs b =
    credit-nth j js (update suc i xs) (omega (arith, b, length-update suc i xs))
    ∙ ground (arith, nth-update-suc i j xs b)

length-credit : (js xs : List ℕ) → length (credit js xs) ≡ length xs
unfolding credit
length-credit [] xs = refl
length-credit (i ∷ js) xs = length-credit js (update suc i xs) ∙ length-update suc i xs

pub length-count : (rows : List (List ℕ)) (xs : List ℕ) → length (count rows xs) ≡ length xs
unfolding count
length-count [] xs = refl
length-count (js ∷ rows) xs = length-count rows (credit js xs) ∙ length-credit js xs

count-nth :
    (k j : ℕ) (rows : List (List ℕ)) (xs : List ℕ)
    → j < length xs
    → nth (count rows xs) j ≡ nth xs j + owed k [] j rows
unfolding count
count-nth k j [] xs b = omega arith
count-nth k j (js ∷ rows) xs b =
    count-nth (suc k) j rows (credit js xs) (omega (arith, b, length-credit js xs))
    ∙ ground (arith, credit-nth j js xs b)

pub length-zeros : (n : ℕ) → length (zeros n) ≡ n
length-zeros zero = refl
length-zeros (suc n) = omega (arith, length-zeros n)

nth-zeros : (n j : ℕ) → nth (zeros n) j ≡ 0
nth-zeros zero j = refl
nth-zeros (suc n) zero = refl
nth-zeros (suc n) (suc j) = nth-zeros n j

pub nth_out : (j : ℕ) (xs : List ℕ) → length xs ≤ j → nth xs j ≡ 0
nth_out j [] b = refl
nth_out zero (x ∷ xs) b = absurd (omega (arith, b))
nth_out (suc j) (x ∷ xs) b = nth_out j xs (omega (arith, b))

-- Every edge goes to an index below `n`.
abbrev pub Within : ℕ → List (List ℕ) → Type 0
Within n = All (All (λ j. j < n))

times_out : (n j : ℕ) (js : List ℕ) → n ≤ j → All (λ i. i < n) js → times j js ≡ 0
times_out n j [] b w = refl
times_out n j (i ∷ js) b w = ground (arith, times_out n j js b w.1, w.0)

owed_out :
    (n k j : ℕ) (order : List ℕ) (rows : List (List ℕ))
    → n ≤ j
    → Within n rows
    → owed k order j rows ≡ 0
owed_out n k j order [] b w = refl
owed_out n k j order (js ∷ rows) b w =
    ground (arith, times_out n j js b w.0, owed_out n (suc k) j order rows b w.1)

-- At the start, `referrers` counts the edges.
pub counted :
    (n j : ℕ) (rows : List (List ℕ))
    → Within n rows
    → nth (count rows (zeros n)) j ≡ owed 0 [] j rows
counted n j rows w = elim (Bool-cases (ltb j n)) [
  | inl t ↦
      count-nth 0 j rows (zeros n) (ground (arith, t, length-zeros n))
      ∙ ground (arith, nth-zeros n j)
  | inr f ↦
      nth_out j (count rows (zeros n))
        (ground (arith, f, length-count rows (zeros n), length-zeros n))
      ∙ sym (owed_out n 0 j [] rows (ground (arith, f)) w)
]

-- An index that joins the order no longer counts.
the_zero : (k : ℕ) → k + 0 ≡ k
the_zero k = omega arith

owed_lt :
    (k i j : ℕ) (order : List ℕ) (rows : List (List ℕ))
    → i < k
    → owed k (order ++ i ∷ []) j rows ≡ owed k order j rows
owed_lt k i j order [] b = refl
owed_lt k i j order (js ∷ rows) b =
    ground
      (arith, owed_lt (suc k) i j order rows (omega (arith, b)), times-append k order (i ∷ []), b)

pub owed-append :
    (i k d j : ℕ) (order : List ℕ) (rows : List (List ℕ))
    → i ≡ k + d
    → times i order ≡ 0
    → owed k (order ++ i ∷ []) j rows + times j (row rows d) ≡ owed k order j rows
owed-append i k d j order [] e n = omega arith
owed-append i k zero j order (js ∷ rows) e n = ground (
  arith,
  n,
  owed_lt (suc k) i j order rows (omega (arith, e)),
  times-append k order (i ∷ []),
  ap (λ x. times x order) e,
  ap (λ x. times x order) (the_zero k),
)
owed-append i k (suc d) j order (js ∷ rows) e n = ground (
  arith,
  owed-append i (suc k) d j order rows (omega (arith, e)) n,
  times-append k order (i ∷ []),
)

-- An edge from an index that the order does not have is owed.
pub owed-row :
    (i k d j : ℕ) (order : List ℕ) (rows : List (List ℕ))
    → i ≡ k + d
    → times i order ≡ 0
    → times j (row rows d) ≤ owed k order j rows
owed-row i k d j order [] e n = omega arith
owed-row i k zero j order (js ∷ rows) e n =
    ground (arith, n, ap (λ x. times x order) e, ap (λ x. times x order) (the_zero k))
owed-row i k (suc d) j order (js ∷ rows) e n =
    ground (arith, owed-row i (suc k) d j order rows (omega (arith, e)) n)

pub owed_none :
    (k j : ℕ) (order : List ℕ) (rows : List (List ℕ))
    → ((i d : ℕ) → i ≡ k + d → 1 ≤ times j (row rows d) → 1 ≤ times i order)
    → owed k order j rows ≡ 0
owed_none k j order [] h = refl
owed_none k j order (js ∷ rows) h = ground (
  arith,
  h k 0 (omega arith),
  owed_none (suc k) j order rows (λ i d e m. h i (suc d) (omega (arith, e)) m),
)
