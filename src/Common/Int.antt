-- ===== src/Common/Int.antt =====
-- Signed integers over the native numbers, for the `i64` values that may fall below zero.
use Prim.Native.Nat.{ℕ, suc, ◌+◌, ◌-◌, ◌≤◌}
use mathlib.Core.Path.{◌≡◌}
use mathlib.Core.Bool.{Bool}
use native.Mathlib.Omega.{arith}
use garret.Common.Tests.{leb, ltb, if◌then◌else◌}

-- `negsuc n` is -(n + 1).
pub data ℤ : Type 0 where
  pos : ℕ → ℤ
  negsuc : ℕ → ℤ

abbrev pub pos_part : ℤ → ℕ
pos_part (pos n) = n
pos_part (negsuc n) = 0

abbrev pub neg_part : ℤ → ℕ
neg_part (pos n) = 0
neg_part (negsuc n) = suc n

-- a - b, as an integer.
abbrev pub sub_ℕ : ℕ → ℕ → ℤ
sub_ℕ a b = if leb b a then pos (a - b) else negsuc (b - a - 1)

infixl 65 ◌+ℤ◌ ◌-ℤ◌
infix 50 ◌≤ℤ◌
unfoldable pub ◌+ℤ◌ : ℤ → ℤ → ℤ
a +ℤ b = sub_ℕ (pos_part a + pos_part b) (neg_part a + neg_part b)

unfoldable pub ◌-ℤ◌ : ℤ → ℤ → ℤ
a -ℤ b = sub_ℕ (pos_part a + neg_part b) (neg_part a + pos_part b)

abbrev pub ◌≤ℤ◌ : ℤ → ℤ → Type 0
a ≤ℤ b = pos_part a + neg_part b ≤ pos_part b + neg_part a

abbrev pub ltb_ℤ : ℤ → ℤ → Bool
ltb_ℤ a b = ltb (pos_part a + neg_part b) (pos_part b + neg_part a)

-- SQL's `MAX(0, z)`.
abbrev pub max0 : ℤ → ℤ
max0 z = pos (pos_part z)

pub +ℤ_pos : (a b : ℕ) → pos a +ℤ pos b ≡ pos (a + b)
unfolding ◌+ℤ◌
+ℤ_pos a b = ground arith

pub -ℤ_pos : (a b : ℕ) → b ≤ a → pos a -ℤ pos b ≡ pos (a - b)
unfolding ◌-ℤ◌
-ℤ_pos a b h = ground arith

-- The counter's arithmetic of an upsert: add the new size, take the old one off.
pub upsert_counter : (t n p : ℕ) → p ≤ t → pos t +ℤ (pos n -ℤ pos p) ≡ pos (t + n - p)
unfolding ◌+ℤ◌ ◌-ℤ◌
upsert_counter t n p h = ground arith

pub debit_counter : (t n : ℕ) → n ≤ t → max0 (pos t -ℤ pos n) ≡ pos (t - n)
unfolding ◌-ℤ◌
debit_counter t n h = ground arith

-- Taking off more than there is leaves nothing.
pub debit_stops : (t n : ℕ) → max0 (pos t -ℤ pos n) ≡ pos (t - n)
unfolding ◌-ℤ◌
debit_stops t n = ground arith
