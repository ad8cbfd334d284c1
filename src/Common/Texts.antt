-- ===== src/Common/Texts.antt =====
-- Lists of texts as sets: `contains` of a slice, a hash set or an SQL `IN`.
use mathlib.Core.Path.{◌≡◌, ap}
use mathlib.Core.Bool.{Bool, true, false, ◌||◌}
use mathlib.Core.List.{List, [], ◌∷◌, ◌++◌}
use mathlib.Core.Path.{refl}
use native.Mathlib.Omega.{arith}
use garret.Common.Lists.{any}
use garret.Common.Bytes.{Text, text_eq, text_eq→≡}

abbrev pub mem : Text → List Text → Bool
mem h = any (text_eq h)

pub mem_same : (g h : Text) (xs : List Text) → text_eq g h ≡ true → mem g xs ≡ mem h xs
mem_same g h xs e = ap (λ x. mem x xs) (text_eq→≡ g h e)

pub mem-append : (h : Text) (xs ys : List Text) → mem h (xs ++ ys) ≡ mem h xs || mem h ys
mem-append h [] ys = refl
mem-append h (x ∷ xs) ys = ground (arith, mem-append h xs ys)

-- No text is there twice.
abbrev pub Distinct : List Text → Type 0
Distinct [] = Unit
Distinct (h ∷ hs) = (mem h hs ≡ false) × Distinct hs
