-- ===== src/Common/Result.antt =====
-- `Result<T, E>`, and its `?`.
use mathlib.Core.Path.{◌≡◌, refl, ap}
use mathlib.Core.Logic.{◌⊎◌, inl, inr}

pub data Result {ℓ κ} (A : Type ℓ) (E : Type κ) : Type (ℓ ⊔ κ) where
  ok : A → Result A E
  err : E → Result A E

infixl 5 ◌>>=◌ ◌>>◌
abbrev pub ◌>>=◌ {ℓ κ μ} :
    {A : Type ℓ} {B : Type κ} {E : Type μ} → Result A E → (A → Result B E) → Result B E
ok a >>= f = f a
err e >>= f = err e

abbrev pub ◌>>◌ {κ μ} : {B : Type κ} {E : Type μ} → Result (Unit {0}) E → Result B E → Result B E
m >> k = m >>= λ _. k

-- `map_err`, which is also what `?` does through `From`.
abbrev pub map_err {ℓ κ μ} :
    {A : Type ℓ} {E : Type κ} {F : Type μ} → (E → F) → Result A E → Result A F
map_err f (ok a) = ok a
map_err f (err e) = err (f e)

pub Result-cases {ℓ κ} :
    {A : Type ℓ} {E : Type κ} (r : Result A E) → ((a : A) × (r ≡ ok a)) ⊎ ((e : E) × (r ≡ err e))
Result-cases (ok a) = inl (a, refl)
Result-cases (err e) = inr (e, refl)

pub ok-injective {ℓ κ} :
    {A : Type ℓ} {E : Type κ} {a b : A} → ◌≡◌ {A = Result A E} (ok a) (ok b) → a ≡ b
ok-injective e = cc

-- What went before a `?` that went through.
pub >>=-eq-ok {ℓ κ μ} :
    {A : Type ℓ} {B : Type κ} {E : Type μ} (first : Result A E) (then : A → Result B E) {result : B}
    → (first >>= then) ≡ ok result
    → (answer : A) × (first ≡ ok answer) × (then answer ≡ ok result)
>>=-eq-ok (ok answer) then through = (answer, refl, through)
>>=-eq-ok (err e) then through = cc

pub err-injective {ℓ κ} :
    {A : Type ℓ} {E : Type κ} {a b : E} → ◌≡◌ {A = Result A E} (err a) (err b) → a ≡ b
err-injective e = cc

-- What went before a result that is an error: a `?` that returned it, or the rest.
pub >>=-eq-err {ℓ κ μ} :
    {A : Type ℓ} {B : Type κ} {E : Type μ} (first : Result A E) (then : A → Result B E) {e : E}
    → (first >>= then) ≡ err e
    → (first ≡ err e) ⊎ ((answer : A) × (first ≡ ok answer) × (then answer ≡ err e))
>>=-eq-err (ok answer) then l = inr (answer, refl, l)
>>=-eq-err {B = B} (err e) then l = inl (ap err (err-injective {A = B} l))
