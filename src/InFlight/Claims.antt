-- ===== src/InFlight/Claims.antt =====
-- `HashMap<String, Kind>` of crates/garret-server/src/inflight.rs as an association list.
use garret.Common.{
  ℕ, suc, ◌+◌, ◌≡◌, refl, false, Option, none, some, List, [], ◌∷◌, arith, if◌then◌else◌, Text,
  text_eq, text_eq_refl, text_eq→≡, text_eq_sym,
}

pub data Kind : Type 0 where
  upload delete : Kind

unfoldable pub lookup : Text → List (Text × Kind) → Option Kind
lookup h [] = none
lookup h ((k, v) ∷ m) = if text_eq k h then some v else lookup h m

unfoldable pub remove : Text → List (Text × Kind) → List (Text × Kind)
remove h [] = []
remove h ((k, v) ∷ m) = if text_eq k h then remove h m else (k, v) ∷ remove h m

-- How many claims are uploads.
abbrev pub count_uploads : List (Text × Kind) → ℕ
count_uploads [] = 0
count_uploads ((k, upload) ∷ m) = suc (count_uploads m)
count_uploads ((k, delete) ∷ m) = count_uploads m

-- No hash is claimed twice.
abbrev pub Distinct : List (Text × Kind) → Type 0
Distinct [] = Unit
Distinct ((k, v) ∷ m) = (lookup k m ≡ none) × Distinct m

abbrev pub weight : Option Kind → ℕ
weight none = 0
weight (some upload) = 1
weight (some delete) = 0

pub lookup-remove_self : (h : Text) (m : List (Text × Kind)) → lookup h (remove h m) ≡ none
unfolding lookup remove
lookup-remove_self h [] = refl
lookup-remove_self h ((k, v) ∷ m) = ground (arith, lookup-remove_self h m)

pub lookup-remove_ne :
    (h j : Text) (m : List (Text × Kind)) → text_eq h j ≡ false → lookup j (remove h m) ≡ lookup j m
unfolding lookup remove
lookup-remove_ne h j [] n = refl
lookup-remove_ne h j ((k, v) ∷ m) n =
    ground (arith, lookup-remove_ne h j m, text_eq→≡ k h, text_eq→≡ k j)

pub lookup_cons_self :
    (h : Text) (v : Kind) (m : List (Text × Kind)) → lookup h ((h, v) ∷ m) ≡ some v
unfolding lookup
lookup_cons_self h v m = ground (arith, text_eq_refl h)

pub remove-none : (h : Text) (m : List (Text × Kind)) → lookup h m ≡ none → remove h m ≡ m
unfolding lookup remove
remove-none h [] e = refl
remove-none h ((k, v) ∷ m) e = ground (arith, remove-none h m)

pub remove-Distinct : (h : Text) (m : List (Text × Kind)) → Distinct m → Distinct (remove h m)
unfolding remove
remove-Distinct h [] d = tt
remove-Distinct h ((k, v) ∷ m) d =
    ground (arith, remove-Distinct h m d.1, lookup-remove_ne h k m, text_eq_sym h k)

-- Removing a claim takes its share off the count of uploads.
pub count_uploads-remove :
    (h : Text) (m : List (Text × Kind))
    → Distinct m
    → count_uploads (remove h m) + weight (lookup h m) ≡ count_uploads m
unfolding lookup remove
count_uploads-remove h [] d = omega arith
count_uploads-remove h ((k, upload) ∷ m) d =
    ground (arith, count_uploads-remove h m d.1, remove-none h m, text_eq→≡ k h)
count_uploads-remove h ((k, delete) ∷ m) d =
    ground (arith, count_uploads-remove h m d.1, remove-none h m, text_eq→≡ k h)

pub count_uploads-zero :
    (m : List (Text × Kind)) (h : Text) → count_uploads m ≡ 0 → weight (lookup h m) ≡ 0
unfolding lookup
count_uploads-zero [] h e = refl
count_uploads-zero ((k, upload) ∷ m) h e = absurd (omega arith)
count_uploads-zero ((k, delete) ∷ m) h e = ground (arith, count_uploads-zero m h e)
