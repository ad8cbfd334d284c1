-- ===== src/Common/Bytes.antt =====
-- Text as its bytes. Comparison is bytewise, as Rust's `==` and SQLite's BINARY collation compare.
use Prim.Native.Nat.{ℕ}
use Prim.Native.Char.{code}
use Prim.Native.String.{String}
use mathlib.Core.Path.{◌≡◌, refl, subst}
use mathlib.Core.Logic.{◌↔◌, ◌≢◌}
use mathlib.Core.Bool.{Bool, true, false, ◌&&◌, ◌||◌}
use mathlib.Core.List.{List, [], ◌∷◌}
use native.Mathlib.Omega.{arith}
use garret.Common.Tests.{ltb, ◌==◌}

abbrev pub Text : Type 0
Text = List ℕ

-- The bytes of an ASCII literal.
abbrev pub codes : String → Text
codes String.[] = []
codes (String.◌∷◌ c s) = code c ∷ codes s

unfoldable pub text_eq : Text → Text → Bool
text_eq [] [] = true
text_eq [] (y ∷ ys) = false
text_eq (x ∷ xs) [] = false
text_eq (x ∷ xs) (y ∷ ys) = x == y && text_eq xs ys

-- Bytewise lexicographic order.
unfoldable pub text_lt : Text → Text → Bool
text_lt xs [] = false
text_lt [] (y ∷ ys) = true
text_lt (x ∷ xs) (y ∷ ys) = ltb x y || (x == y && text_lt xs ys)

pub text_eq_refl : (a : Text) → text_eq a a ≡ true
unfolding text_eq
text_eq_refl [] = refl
text_eq_refl (x ∷ xs) = ground (arith, text_eq_refl xs)

pub text_eq→≡ : (a b : Text) → text_eq a b ≡ true → a ≡ b
unfolding text_eq
text_eq→≡ [] [] h = refl
text_eq→≡ [] (y ∷ ys) h = cc
text_eq→≡ (x ∷ xs) [] h = cc
text_eq→≡ (x ∷ xs) (y ∷ ys) h = ground (arith, text_eq→≡ xs ys)

pub text_eq_iff : (a b : Text) → (text_eq a b ≡ true) ↔ (a ≡ b)
text_eq_iff a b = (text_eq→≡ a b, λ e. subst (λ x. text_eq a x ≡ true) e (text_eq_refl a))

pub text_eq_sym : (a b : Text) → text_eq a b ≡ text_eq b a
unfolding text_eq
text_eq_sym [] [] = refl
text_eq_sym [] (y ∷ ys) = refl
text_eq_sym (x ∷ xs) [] = refl
text_eq_sym (x ∷ xs) (y ∷ ys) = ground (arith, text_eq_sym xs ys)

pub text_ne : (a b : Text) → a ≢ b → text_eq a b ≡ false
text_ne a b h = ground (arith, text_eq→≡ a b)
