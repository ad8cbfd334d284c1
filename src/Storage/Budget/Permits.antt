-- ===== src/Storage/Budget/Permits.antt =====
-- The upload budget of crates/garret-server/src/storage.rs in bytes.
use native.Mathlib.Nat.{div-add-mod', lt-mul-div-succ, div-mul-le_self, mul-le-mul_right}
use garret.Common.{
  ℕ, zero, suc, ◌+◌, ◌*◌, ◌/◌, ◌%◌, ◌^◌, ◌≤◌, ◌<◌, ◌≡◌, ◌⊎◌, refl, sym, subst, Bool, true, ◌&&◌,
  List, [], ◌∷◌, arith, ltb, ◌==◌, ==_iff, min, max, All, inl, inr, Bool-cases, map,
}
use garret.Storage.Budget.{ilog2, trailing_zeros, units_ceil, shift_of, budget, units_for, permits}

ilog2_le : (fuel n : ℕ) → ilog2 fuel n ≤ fuel
ilog2_le zero n = omega arith
ilog2_le (suc fuel) n = ground (arith, ilog2_le fuel (n / 2))

test_shifts : ℕ → Bool
test_shifts zero = true
test_shifts (suc k) = (trailing_zeros 64 (2 ^ k) == k) && ltb 0 (2 ^ k) && test_shifts k

all_shifts : test_shifts 17 ≡ true
unfolding test_shifts
all_shifts = refl

shift_tested :
    (count k : ℕ)
    → k < count
    → test_shifts count ≡ true
    → (trailing_zeros 64 (2 ^ k) ≡ k) × (0 < 2 ^ k)
unfolding test_shifts
shift_tested zero k h t = absurd (omega arith)
shift_tested (suc count) k h t = elim (Bool-cases (k == count)) [
  | inr n ↦ shift_tested count k (ground arith) (ground arith)
  | inl e ↦
      subst (λ c. (trailing_zeros 64 (2 ^ c) ≡ c) × (0 < 2 ^ c)) (sym ((==_iff k count).0 e))
        (ground arith, ground arith)
]

ceil_covers : (b s : ℕ) → 0 < 2 ^ s → b ≤ units_ceil b s * 2 ^ s
unfolding units_ceil
ceil_covers b s pos = elim (Bool-cases (b % 2 ^ s == 0)) [
  | inl t ↦ rw t (omega (arith, div-add-mod' b (2 ^ s), (==_iff (b % 2 ^ s) 0).0 t))
  | inr f ↦ rw f (le_of_lt_comm b (2 ^ s) (b / 2 ^ s + 1) (lt-mul-div-succ b pos))
]
  where
    le_of_lt_comm : (b u q : ℕ) → b < u * q → b ≤ q * u
    le_of_lt_comm b u q h = omega arith

ceil_tight : (b s : ℕ) → units_ceil b s * 2 ^ s ≤ b + 2 ^ s
unfolding units_ceil
ceil_tight b s = elim (Bool-cases (b % 2 ^ s == 0)) [
  | inl t ↦ rw t (omega (arith, div-mul-le_self b (2 ^ s)))
  | inr f ↦ rw f (omega (arith, div-mul-le_self b (2 ^ s)))
]

clamp_cases : (c p : ℕ) → 0 < p → (c ≤ min (max c 1) p) ⊎ (min (max c 1) p ≡ p)
clamp_cases c p h = ground arith

not_zero : (n p u : ℕ) → 0 < n → n ≤ p * u → 0 < p
not_zero n zero u h le = absurd (omega arith)
not_zero n (suc p) u h le = omega arith

covered :
    (part_size bytes s : ℕ)
    → 0 < 2 ^ s
    → trailing_zeros 64 (2 ^ s) ≡ s
    → 0 < part_size
    → bytes ≤ part_size
    → bytes ≤ units_for bytes (2 ^ s) (units_ceil part_size s) * 2 ^ s
unfolding units_for
covered part_size bytes s pos tz some_size fits =
    let p = units_ceil part_size s in
    let c = units_ceil bytes s in
    let whole = ceil_covers part_size s pos in
    let p_pos = not_zero part_size p (2 ^ s) some_size whole in
    elim (clamp_cases c p p_pos) [
      | inl le ↦ rw tz (le_trans (ceil_covers bytes s pos) (mul-le-mul_right (2 ^ s) le))
      | inr e ↦ rw (tz, e) (le_trans fits whole)
    ]
  where
    le_trans : {a b d : ℕ} → a ≤ b → b ≤ d → a ≤ d
    le_trans h k = omega arith

-- A buffer of up to one part is paid for by its permits; there is at least one, no more than a part
-- has, and a part has no more than there are, so no request waits for permits that do not exist.
pub budget-units_for :
    (part_size max_bytes bytes : ℕ)
    → 0 < part_size
    → bytes ≤ part_size
    → let b = budget part_size max_bytes in
      let units = units_for bytes b.unit b.part_units in
      (1 ≤ units)
      × (bytes ≤ units * b.unit)
      × (units ≤ b.part_units)
      × (b.part_units ≤ b.total_units)
unfolding budget units_for
budget-units_for part_size max_bytes bytes some_size fits =
    let s = shift_of part_size in
    let (tz, pos) =
      shift_tested 17 s (omega (arith, ilog2_le 16 (min (max (part_size / 256) 1) 65536)))
        all_shifts in
    let p_pos =
      not_zero part_size (units_ceil part_size s) (2 ^ s) some_size (ceil_covers part_size s pos) in
    (
      ground (arith, p_pos),
      covered part_size bytes s pos tz some_size fits,
      ground arith,
      ground arith,
    )

abbrev pub sum : List ℕ → ℕ
sum [] = 0
sum (n ∷ ns) = n + sum ns

max_times : (a p u b : ℕ) → a * u ≤ b → p * u ≤ b → max a p * u ≤ b
max_times a p u b h k = elim (cases a p) [ inl e ↦ rw e h | inr e ↦ rw e k ]
  where
    cases : (a p : ℕ) → (max a p ≡ a) ⊎ (max a p ≡ p)
    cases a p = ground arith

-- Buffers whose permits are all taken from the budget hold no more bytes than the configured cap and
-- one unit, however many they are, if none is larger than a part and the cap holds a part.
pub budget-sum :
    (part_size max_bytes : ℕ) (sizes : List ℕ)
    → 0 < part_size
    → part_size ≤ max_bytes
    → All (λ n. n ≤ part_size) sizes
    → sum (map (permits part_size max_bytes) sizes) ≤ (budget part_size max_bytes).total_units
    → sum sizes ≤ max_bytes + (budget part_size max_bytes).unit
unfolding budget permits
budget-sum part_size max_bytes sizes some_size part_fits fit taken =
    let s = shift_of part_size in
    let total =
      max_times (max_bytes / 2 ^ s) (units_ceil part_size s) (2 ^ s) (max_bytes + 2 ^ s)
        (omega (arith, div-mul-le_self max_bytes (2 ^ s)))
        (omega (arith, ceil_tight part_size s)) in
    le_chain (all_paid sizes fit) (mul-le-mul_right (2 ^ s) taken) total
  where
    le_chain : {a b c d : ℕ} → a ≤ b → b ≤ c → c ≤ d → a ≤ d
    le_chain h k l = omega arith

    step : (n ns u us w : ℕ) → n ≤ u * w → ns ≤ us * w → n + ns ≤ (u + us) * w
    step n ns u us w h k = omega arith

    all_paid :
        (sizes : List ℕ)
        → All (λ n. n ≤ part_size) sizes
        → sum sizes
          ≤ sum (map (permits part_size max_bytes) sizes) * (budget part_size max_bytes).unit
    all_paid [] fit = omega arith
    all_paid (n ∷ ns) fit =
        let b = budget part_size max_bytes in
        step n (sum ns) (permits part_size max_bytes n) (sum (map (permits part_size max_bytes) ns))
          b.unit (budget-units_for part_size max_bytes n some_size fit.0).1 (all_paid ns fit.1)
