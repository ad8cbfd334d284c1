-- ===== src/Verify/Inline.antt =====
-- crates/garret-pusher/src/verify.rs: what the inline check makes of a stream.
use garret.Common.{◌≡◌, refl, sym, ap, ◌∙◌, Option, some, List, [], ◌∷◌, ◌++◌, Text, inl, inr}
use garret.Common.Result.{Result, ok, err, ◌>>=◌, Result-cases}
use garret.Storage.Stream.{Item, broken}
use garret.Verify.{Zstd, Checker, Fault, Checked, feed, finish_check}
use garret.Verify.Nar.{Outcome, accepted, refused, verified}

-- The chunks of a stream, without its errors.
abbrev pub chunks : List Item → List Text
chunks [] = []
chunks (err e ∷ items) = chunks items
chunks (ok chunk ∷ items) = chunk ∷ chunks items

pub chunks-append : (xs ys : List Item) → chunks (xs ++ ys) ≡ chunks xs ++ chunks ys
chunks-append [] ys = refl
chunks-append (err e ∷ xs) ys = chunks-append xs ys
chunks-append (ok chunk ∷ xs) ys = ap (λ cs. chunk ∷ cs) (chunks-append xs ys)

abbrev pub outcome_of : Checked → Outcome
outcome_of (ok tt) = accepted
outcome_of (err reason) = refused reason

module _ {D : Type 0} (zstd : Zstd D) where
  -- A checker that was fed chunk after chunk.
  unfoldable pub feeds : Checker D → List Text → Result (Checker D) Fault
  feeds c [] = ok c
  feeds c (chunk ∷ cs) = feed zstd c chunk >>= λ next. feeds next cs

  pub feeds-append :
      (c : Checker D) (cs ds : List Text)
      → feeds c (cs ++ ds) ≡ (feeds c cs >>= λ next. feeds next ds)
  unfolding feeds
  feeds-append c [] ds = refl
  feeds-append c (chunk ∷ cs) ds = elim (Result-cases (feed zstd c chunk)) [
    | inl (next, e) ↦ rw e (feeds-append next cs ds)
    | inr (reason, e) ↦ rw e refl
  ]

  abbrev pub verdict_on : Checker D → List Text → Checked
  verdict_on c cs = feeds c cs >>= finish_check zstd

  abbrev pub fed_as : Text → List Item → Result (Checker D) Fault → List Item × Option Outcome
  fed_as chunk items fed = elim fed [
    | err reason ↦ (err broken ∷ [], some (refused reason))
    | ok next ↦ let rest = verified zstd next items in (ok chunk ∷ rest.0, rest.1)
  ]

  pub verified_fed :
      (c : Checker D) (chunk : Text) (items : List Item) {r : Result (Checker D) Fault}
      → feed zstd c chunk ≡ r
      → verified zstd c (ok chunk ∷ items) ≡ fed_as chunk items r
  unfolding verified
  verified_fed c chunk items e = ap (fed_as chunk items) e

  pub verified-outcome :
      (c : Checker D) (items : List Item)
      → (verified zstd c items).1 ≡ some (outcome_of (verdict_on c (chunks items)))
  unfolding verified feeds
  verified-outcome c [] = elim (Result-cases (finish_check zstd c)) [
    | inl (done, e) ↦ rw e refl
    | inr (reason, e) ↦ rw e refl
  ]
  verified-outcome c (err e ∷ items) = verified-outcome c items
  verified-outcome c (ok chunk ∷ items) = elim (Result-cases (feed zstd c chunk)) [
    | inl (next, e) ↦
        ap (λ (v : List Item × Option Outcome). v.1) (verified_fed c chunk items e)
        ∙ verified-outcome next items
        ∙ ap (λ r. some (outcome_of (r >>= (λ n. feeds n (chunks items)) >>= finish_check zstd)))
            (sym e)
    | inr (reason, e) ↦
        ap (λ (v : List Item × Option Outcome). v.1) (verified_fed c chunk items e)
        ∙ ap (λ r. some (outcome_of (r >>= (λ n. feeds n (chunks items)) >>= finish_check zstd)))
            (sym e)
  ]

  -- What is accepted was passed on unchanged.
  pub verified-passes :
      (c : Checker D) (items : List Item)
      → verdict_on c (chunks items) ≡ ok tt
      → (verified zstd c items).0 ≡ items
  unfolding verified feeds
  verified-passes c [] v = rw v refl
  verified-passes c (err e ∷ items) v = ap (λ r. err e ∷ r) (verified-passes c items v)
  verified-passes c (ok chunk ∷ items) v = elim (Result-cases (feed zstd c chunk)) [
    | inl (next, e) ↦
        ap (λ (v : List Item × Option Outcome). v.0) (verified_fed c chunk items e)
        ∙ ap (λ r. ok chunk ∷ r) (verified-passes next items (rw e at v))
    | inr (reason, e) ↦ cc (rw e at v)
  ]
