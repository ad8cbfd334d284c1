-- ===== src/Deletion.antt =====
-- crates/garret-pusher/src/deletion.rs: claim the path, delete its row, delete its blob, release the
-- claim. The in-flight map is passed along; a claim that goes out of scope is dropped on it.
pub mod Claims
mod Tests
use garret.Common.{ℕ, List, [], ◌∷◌, ◌++◌, Bool, Text, length}
use garret.Common.Result.{Result, ok, err}
use garret.InFlight.{State, Claim, Busy, claim_delete, drop_claim}
use garret.StorePath.Files.{key_for}

pub record Deletion : Type 0 where
  pub claims : List Claim
  pub keys : List Text

-- `Deletion::default`.
abbrev pub nothing : Deletion
nothing = record { claims = []; keys = [] }

unfoldable pub drop_all : State → List Claim → State
drop_all s [] = s
drop_all s (c ∷ claims) = drop_all (drop_claim s c) claims

-- The error names the path, and whether it is being uploaded or deleted.
abbrev pub BusyPath : Type 0
BusyPath = Text × Busy

-- `collect` stops at the first refusal and drops the claims collected before it.
unfoldable pub claim_each : State → List Text → List Claim → State × Result (List Claim) BusyPath
unfolding drop_all
claim_each s [] claims = (s, ok claims)
claim_each s (hash ∷ hashes) claims = elim (claim_delete s hash) [
  | err busy ↦ (drop_all s claims, err (hash, busy))
  | ok (t, c) ↦ claim_each t hashes (claims ++ c ∷ [])
]

abbrev begun : State × Result (List Claim) BusyPath → State × Result Deletion BusyPath
begun (s, ok claims) = (s, ok (record { claims = claims; keys = [] }))
begun (s, err e) = (s, err e)

unfoldable pub claim_all : State → List Text → State × Result Deletion BusyPath
unfolding claim_each
claim_all s hashes = begun (claim_each s hashes [])

unfoldable pub queue_blob : Deletion → Text → Deletion
queue_blob d hash = record d { keys = d.keys ++ key_for hash ∷ [] }

unfoldable pub hold : Deletion → Claim → Deletion
unfolding queue_blob
hold d c = record (queue_blob d c.hash) { claims = d.claims ++ c ∷ [] }

unfoldable pub len : Deletion → ℕ
len d = length d.keys

-- `delete_objects` is S3's: from the keys to delete and the keys stored, those that remain, and
-- whether S3 reported success.
module _ (delete_objects : List Text → List Text → List Text × Bool) where
  unfoldable pub finish : State → List Text → Deletion → State × List Text × Bool
  unfolding drop_all
  finish s blobs d =
      let (left, deleted) = delete_objects d.keys blobs in (drop_all s d.claims, left, deleted)
