-- ===== src/InFlight.antt =====
-- crates/garret-server/src/inflight.rs: the shared map of the store path hashes that are being
-- uploaded or deleted, and the quiesce gate. Each method runs under the mutex, so it is one step on
-- the state. A `Claim` is the hash that it releases; dropping it is `drop_claim`.
pub mod Claims
pub mod Counted
pub mod Exclusive
mod Tests
use garret.Common.{
  ℕ, ◌+◌, ◌-◌, Bool, Option, none, some, List, [], ◌∷◌, ltb, ◌==◌, if◌then◌else◌, Text, is_some,
}
use garret.Common.Result.{Result, ok, err, map_err}
use Claims.{Kind, upload, delete, lookup, remove}

pub data Refused : Type 0 where
  uploading deleting quiescing : Refused

pub data Busy : Type 0 where
  uploading deleting : Busy

pub record State : Type 0 where
  pub claims : List (Text × Kind)
  pub uploads : ℕ
  pub quiescers : ℕ

pub record Claim : Type 0 where
  pub hash : Text

-- `impl From<Busy> for Refused`.
abbrev pub refused_from : Busy → Refused
refused_from Busy.uploading = Refused.uploading
refused_from Busy.deleting = Refused.deleting

abbrev pub busy_with : Kind → Busy
busy_with upload = Busy.uploading
busy_with delete = Busy.deleting

abbrev count_upload : Kind → ℕ → ℕ
count_upload upload n = n + 1
count_upload delete n = n

-- `InFlight::new`.
unfoldable pub new : State
new = record { claims = []; uploads = 0; quiescers = 0 }

unfoldable pub take : State → Text → Kind → Result (State × Claim) Busy
take s hash kind = elim (lookup hash s.claims) [
  | some held ↦ err (busy_with held)
  | none ↦ ok (
    record s { claims = (hash, kind) ∷ s.claims; uploads = count_upload kind s.uploads },
    record { hash = hash },
  )
]

unfoldable pub claim : State → Text → Result (State × Claim) Refused
unfolding take
claim s hash =
    if ltb 0 s.quiescers then err Refused.quiescing else map_err refused_from (take s hash upload)

unfoldable pub claim_delete : State → Text → Result (State × Claim) Busy
unfolding take
claim_delete s hash = take s hash delete

unfoldable pub contains : State → Text → Bool
contains s hash = is_some (lookup hash s.claims)

unfoldable pub is_quiescing : State → Bool
is_quiescing s = ltb 0 s.quiescers

unfoldable pub quiesce : State → State
quiesce s = record s { quiescers = s.quiescers + 1 }

-- `Drop for QuiesceGuard`. A guard that lives was counted, so the count is not 0 here.
unfoldable pub drop_guard : State → State
drop_guard s = record s { quiescers = s.quiescers - 1 }

abbrev uncount : Option Kind → ℕ → ℕ
uncount none n = n
uncount (some upload) n = n - 1
uncount (some delete) n = n

-- `Drop for Claim`, less the wake-up of the drain.
unfoldable pub drop_claim : State → Claim → State
drop_claim s c = record s {
  claims = remove c.hash s.claims;
  uploads = uncount (lookup c.hash s.claims) s.uploads;
}

-- The test that `QuiesceGuard::drain` waits on.
unfoldable pub drained : State → Bool
drained s = s.uploads == 0
