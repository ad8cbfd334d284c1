-- ===== src/Db/Prune/Sums.antt =====
-- Sums over the first numbers, for the counts of crates/garret-server/src/db.rs.
use garret.Common.{
  ℕ, zero, suc, ◌+◌, ◌≤◌, ◌<◌, ◌≡◌, refl, sym, ap, true, List, [], ◌∷◌, arith, if◌then◌else◌, All,
  length, ltb, ◌==◌, inl, inr, Bool-cases,
}
use garret.Db.Prune.Kahn.{times}

-- The sum of a function over the numbers below `n`.
abbrev pub sum : ℕ → (ℕ → ℕ) → ℕ
sum zero f = 0
sum (suc n) f = f n + sum n f

pub sum_add : (n : ℕ) (f g : ℕ → ℕ) → sum n (λ j. f j + g j) ≡ sum n f + sum n g
sum_add zero f g = refl
sum_add (suc n) f g = omega (arith, sum_add n f g)

sum_zero : (n : ℕ) → sum n (λ j. 0) ≡ 0
sum_zero zero = refl
sum_zero (suc n) = omega (arith, sum_zero n)

sum_below : (n x : ℕ) → sum n (λ j. if x == j then 1 else 0) ≡ (if ltb x n then 1 else 0)
sum_below zero x = ground arith
sum_below (suc n) x = ground (arith, sum_below n x)

pub length-sum : (n : ℕ) (xs : List ℕ) → All (λ x. x < n) xs → length xs ≡ sum n (λ j. times j xs)
length-sum n [] w = sym (sum_zero n)
length-sum n (x ∷ xs) w = ground (
  arith,
  length-sum n xs w.1,
  sum_below n x,
  sum_add n (λ j. if x == j then 1 else 0) (λ j. times j xs),
  w.0,
)

pub sum_mono : (n : ℕ) (f g : ℕ → ℕ) → ((j : ℕ) → f j ≤ g j) → sum n f ≤ sum n g
sum_mono zero f g h = omega arith
sum_mono (suc n) f g h = omega (arith, h n, sum_mono n f g h)

pub sum_ones : (n : ℕ) (f : ℕ → ℕ) → ((j : ℕ) → j < n → f j ≡ 1) → sum n f ≡ n
sum_ones zero f h = refl
sum_ones (suc n) f h =
    omega (arith, h n (omega arith), sum_ones n f (λ j b. h j (omega (arith, b))))

pub sum_one : (n : ℕ) → sum n (λ j. 1) ≡ n
sum_one zero = refl
sum_one (suc n) = omega (arith, sum_one n)

==→≡ : (a b : ℕ) → (a == b) ≡ true → a ≡ b
==→≡ a b e = ground arith

pub sum-le : (n j : ℕ) (f : ℕ → ℕ) → j < n → f j ≤ sum n f
sum-le zero j f b = absurd (omega (arith, b))
sum-le (suc n) j f b = elim (Bool-cases (j == n)) [
  | inl t ↦ omega (arith, ap f (==→≡ j n t))
  | inr e ↦ omega (arith, sum-le n j f (ground (arith, b, e)))
]

pub below : (n : ℕ) (xs : List ℕ) → ((j : ℕ) → n ≤ j → times j xs ≡ 0) → All (λ x. x < n) xs
below n [] h = tt
below n (x ∷ xs) h = (ground (arith, h x), below n xs (λ j b. ground (arith, h j b)))
