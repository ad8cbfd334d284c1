-- ===== src/InFlight/Counted.antt =====
-- crates/garret-server/src/inflight.rs: the map against its counters, method by method.
use garret.Common.{
  ◌+◌, ◌≡◌, ◌≢◌, refl, sym, ◌∙◌, none, some, ◌∷◌, arith, Text, inl, inr, Option-cases,
}
use garret.Common.Result.{ok, err, err-injective}
use garret.InFlight.Claims.{
  Kind, upload, delete, lookup, count_uploads, Distinct, remove-Distinct, count_uploads-remove,
}
use garret.InFlight.{
  State, Claim, Busy, Refused, new, take, claim, claim_delete, drop_claim, busy_with, refused_from,
}

-- The map holds a path once, and `uploads` counts its upload claims.
pub record IsCounted (s : State) : Type 0 where
  pub distinct : Distinct s.claims
  pub counted : s.uploads ≡ count_uploads s.claims

pub new-IsCounted : IsCounted new
unfolding new
new-IsCounted = record { distinct = tt; counted = refl }

pub take-IsCounted :
    (s : State) (h : Text) (k : Kind) {t : State} {c : Claim}
    → IsCounted s
    → take s h k ≡ ok (t, c)
    → IsCounted t
unfolding take
take-IsCounted s h upload v e = ground arith
take-IsCounted s h delete v e = ground arith

pub drop_claim-IsCounted : (s : State) (c : Claim) → IsCounted s → IsCounted (drop_claim s c)
unfolding drop_claim
drop_claim-IsCounted s c v = ground (
  arith,
  remove-Distinct c.hash s.claims v.distinct,
  count_uploads-remove c.hash s.claims v.distinct,
)

-- What an upload claim answers, on every branch: it is refused while the gate is shut, then for the
-- claim that holds the path, and otherwise it is recorded as one more upload.
pub claim_lem :
    (s : State) (h : Text)
    → (s.quiescers ≢ 0 → claim s h ≡ err Refused.quiescing)
      × ((k : Kind)
          → s.quiescers ≡ 0
          → lookup h s.claims ≡ some k
          → claim s h ≡ err (refused_from (busy_with k)))
      × (s.quiescers ≡ 0
          → lookup h s.claims ≡ none
          → claim s h
            ≡ ok (
              record s { claims = (h, upload) ∷ s.claims; uploads = s.uploads + 1 },
              record { hash = h },
            ))
unfolding claim
claim_lem s h = (λ n. ground arith, λ k z e. ground arith, λ z e. ground arith)

-- A delete claim does not look at the gate.
pub claim_delete_lem :
    (s : State) (h : Text)
    → ((k : Kind) → lookup h s.claims ≡ some k → claim_delete s h ≡ err (busy_with k))
      × (lookup h s.claims ≡ none
          → claim_delete s h
            ≡ ok (record s { claims = (h, delete) ∷ s.claims }, record { hash = h }))
unfolding claim_delete
claim_delete_lem s h = (λ k e. ground arith, λ e. ground arith)

-- A refusal names how the path is claimed.
pub claim_delete-busy :
    (s : State) (h : Text) {b : Busy}
    → claim_delete s h ≡ err b
    → (k : Kind) × (lookup h s.claims ≡ some k) × (b ≡ busy_with k)
claim_delete-busy s h {b} e = elim (Option-cases (lookup h s.claims)) [
  | inr (k, there) ↦ (k, there, err-injective (sym e ∙ (claim_delete_lem s h).0 k there))
  | inl free ↦ cc (e, (claim_delete_lem s h).1 free)
]
