-- ===== src/StorePath/Split.antt =====
-- The methods of `str` that the store path helpers call, on bytes.
use garret.Common.{
  ℕ, ◌-◌, ◌≡◌, ◌≢◌, refl, Bool, true, false, ◌&&◌, Option, none, some, [], ◌∷◌, ◌++◌, arith,
  if◌then◌else◌, ◌==◌, Text, text_eq, text_eq_refl, text_eq→≡, length, take, drop, all,
  length-append, drop-append, take-append, take-append-drop, leb, Option-cases, inl, inr,
}
use mathlib.Core.List.{append_assoc, append-nil}

-- `strip_prefix`.
unfoldable pub strip_prefix : Text → Text → Option Text
strip_prefix [] s = some s
strip_prefix (p ∷ ps) [] = none
strip_prefix (p ∷ ps) (c ∷ s) = if p == c then strip_prefix ps s else none

-- `strip_suffix`: the suffix is what is left behind the first `len - suffix.len()` bytes.
unfoldable pub strip_suffix : Text → Text → Option Text
strip_suffix suffix s =
    let n = length s - length suffix in
    if leb (length suffix) (length s) && text_eq (drop n s) suffix then some (take n s) else none

-- `split_once`, at the first `c`.
unfoldable pub split_once : ℕ → Text → Option (Text × Text)
split_once c [] = none
split_once c (x ∷ s) =
    if x == c
    then some ([], s)
    else elim (split_once c s) [ none ↦ none | some (a, b) ↦ some (x ∷ a, b) ]

-- `split(c).next()`: up to the first `c`, or all of it.
unfoldable pub before_first : ℕ → Text → Text
before_first c [] = []
before_first c (x ∷ s) = if x == c then [] else x ∷ before_first c s

-- `rsplit(c).next()`: behind the last `c`, or all of it.
unfoldable pub after_last_from : Text → ℕ → Text → Text
after_last_from acc c [] = acc
after_last_from acc c (x ∷ s) = after_last_from (if x == c then [] else acc ++ x ∷ []) c s

unfoldable pub after_last : ℕ → Text → Text
unfolding after_last_from
after_last c s = after_last_from [] c s

-- `trim_end_matches(c)`.
unfoldable pub trim_end : ℕ → Text → Text
trim_end c [] = []
trim_end c (x ∷ s) = elim (trim_end c s) [ [] ↦ if x == c then [] else x ∷ [] | y ∷ r ↦ x ∷ y ∷ r ]

-- No byte of the text is `c`.
abbrev pub free_of : ℕ → Text → Bool
free_of c = all (λ x. if x == c then false else true)

pub strip_prefix-append : (p s : Text) → strip_prefix p (p ++ s) ≡ some s
unfolding strip_prefix
strip_prefix-append [] s = refl
strip_prefix-append (c ∷ p) s = ground (arith, strip_prefix-append p s)

pub strip_prefix_sound : (p s : Text) {r : Text} → strip_prefix p s ≡ some r → s ≡ p ++ r
unfolding strip_prefix
strip_prefix_sound [] s e = ground arith
strip_prefix_sound (c ∷ p) [] e = cc
strip_prefix_sound (c ∷ p) (x ∷ s) {r} e = ground (arith, strip_prefix_sound p s {r = r})

pub strip_suffix-append : (s p : Text) → strip_suffix p (s ++ p) ≡ some s
unfolding strip_suffix
strip_suffix-append s p =
    let e : length (s ++ p) - length p ≡ length s = omega (arith, length-append s p) in
    rw (e, drop-append s p, take-append s p) (ground (arith, text_eq_refl p, length-append s p))

pub split_once-append :
    (c : ℕ) (a b : Text) → free_of c a ≡ true → split_once c (a ++ c ∷ b) ≡ some (a, b)
unfolding split_once
split_once-append c [] b f = ground arith
split_once-append c (x ∷ a) b f = ground (arith, split_once-append c a b)

pub split_once_sound :
    (c : ℕ) (s : Text) {a b : Text}
    → split_once c s ≡ some (a, b)
    → (s ≡ a ++ c ∷ b) × (free_of c a ≡ true)
unfolding split_once
split_once_sound c [] e = absurd (cc)
split_once_sound c (x ∷ s) {a} {b} e = elim (Option-cases (split_once c s)) [
  | inl n ↦ ground (arith, n)
  | inr (r, h) ↦ ground (arith, h, split_once_sound c s {a = r.0} {b = r.1} h)
]

pub before_first-append :
    (c : ℕ) (a b : Text) → free_of c a ≡ true → before_first c (a ++ c ∷ b) ≡ a
unfolding before_first
before_first-append c [] b f = ground arith
before_first-append c (x ∷ a) b f = ground (arith, before_first-append c a b)

pub before_first_free : (c : ℕ) (a : Text) → free_of c a ≡ true → before_first c a ≡ a
unfolding before_first
before_first_free c [] f = refl
before_first_free c (x ∷ a) f = ground (arith, before_first_free c a)

after_last_from_free :
    (c : ℕ) (acc s : Text) → free_of c s ≡ true → after_last_from acc c s ≡ acc ++ s
unfolding after_last_from
after_last_from_free c acc [] f = rw (append-nil acc)
after_last_from_free c acc (x ∷ s) f =
    ground (arith, after_last_from_free c (acc ++ x ∷ []) s, append_assoc acc (x ∷ []) s)

after_last_from-append :
    (c : ℕ) (acc p s : Text) → free_of c s ≡ true → after_last_from acc c (p ++ c ∷ s) ≡ s
unfolding after_last_from
after_last_from-append c acc [] s f = ground (arith, after_last_from_free c [] s)
after_last_from-append c acc (x ∷ p) s f =
    ground (arith, after_last_from-append c (if x == c then [] else acc ++ x ∷ []) p s f)

pub after_last-append : (c : ℕ) (p s : Text) → free_of c s ≡ true → after_last c (p ++ c ∷ s) ≡ s
unfolding after_last
after_last-append c p s f = after_last_from-append c [] p s f

pub after_last_free : (c : ℕ) (s : Text) → free_of c s ≡ true → after_last c s ≡ s
unfolding after_last
after_last_free c s f = after_last_from_free c [] s f

pub trim_end_free : (c : ℕ) (s : Text) → free_of c s ≡ true → trim_end c s ≡ s
unfolding trim_end
trim_end_free c [] f = refl
trim_end_free c (x ∷ []) f = ground arith
trim_end_free c (x ∷ y ∷ s) f = rw (trim_end_free c (y ∷ s) (ground arith))

-- What trimming leaves alone it leaves alone behind anything.
pub trim_end-append :
    (c : ℕ) (p s : Text) → trim_end c s ≡ s → s ≢ [] → trim_end c (p ++ s) ≡ p ++ s
unfolding trim_end
trim_end-append c [] s e n = e
trim_end-append c (x ∷ []) [] e n = absurd (n refl)
trim_end-append c (x ∷ []) (y ∷ s) e n = rw e
trim_end-append c (x ∷ y ∷ p) s e n = rw (trim_end-append c (y ∷ p) s e n)

pub trim_end_last : (c : ℕ) (s : Text) → trim_end c (s ++ c ∷ []) ≡ trim_end c s
unfolding trim_end
trim_end_last c [] = ground arith
trim_end_last c (x ∷ s) = rw (trim_end_last c s)

pub strip_suffix_sound : (p s : Text) {r : Text} → strip_suffix p s ≡ some r → s ≡ r ++ p
unfolding strip_suffix
strip_suffix_sound p s {r} e =
    let n = length s - length p in ground (arith, take-append-drop n s, text_eq→≡ (drop n s) p)
