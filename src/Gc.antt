-- ===== src/Gc.antt =====
-- crates/garret-pusher/src/gc.rs: the eviction pass and the orphan sweep. A pass runs between the
-- steps of other tasks: every wait on the database is a point where `others` may change what is
-- shared, by the number of waits so far. The clock is `unix_now`, read at a wait.
pub mod Exact
pub mod Accounting
pub mod Endings
pub mod Ends
pub mod Sweep
pub mod Timer
mod Tests
use garret.Common.{
  ℕ, zero, suc, ◌+◌, Bool, true, false, Option, none, some, List, [], ◌∷◌, if◌then◌else◌, Text,
}
use garret.Common.Int.{ℤ, pos, ◌-ℤ◌, ltb_ℤ}
use garret.Common.Result.{Result, ok, err}
use garret.InFlight.{State, Claim, Busy, claim_delete, drop_claim}
use garret.Db.Schema.{Database}
use garret.Db.Objects.{reconcile_total_bytes}
use garret.Db.Evict.{evictable, evict_object}
use garret.Deletion.{Deletion, nothing, hold, finish}

-- `BATCH`.
abbrev pub batch_size : ℕ
batch_size = 500

-- What the Pusher's tasks share: the database, the in-flight map and the keys in the bucket.
pub record Shared : Type 0 where
  pub db : Database
  pub in_flight : State
  pub blobs : List Text
  pub waits : ℕ

pub record PassResult : Type 0 where
  pub evicted : ℕ
  pub bytes_freed : ℕ
  pub candidates_exhausted : Bool

-- The local variables of `evict`; `settled` and `deletion` belong to one batch.
pub record Pass : Type 0 where
  pub shared : Shared
  pub usage : ℤ
  pub result : PassResult
  pub deletion : Deletion
  pub settled : Bool

pub record Environment : Type 0 where
  pub others : ℕ → Shared → Shared
  pub unix_now : ℕ → ℕ
  pub delete_objects : List Text → List Text → List Text × Bool

-- How a pass ends: with its result, or with the error of the blob delete.
pub data Ending : Type 0 where
  done failed : Pass → Ending

-- What follows a batch: by whether its blobs went, and whether it claimed anything; `more` is the
-- rest of the pass.
unfoldable pub concluded : Bool → Bool → Pass → Option Ending → Option Ending
concluded false settled p more = some (failed p)
concluded true false p more = some (done p)
concluded true true p more = more

pub data Tick : Type 0 where
  idle : Shared → Tick
  ran : Option Ending → Tick

abbrev pub exhausted : Pass → Pass
exhausted p = record p { result = record p.result { candidates_exhausted = true } }

-- One turn of the `while` loop, by its candidates: the pass as it was, and after the batch.
unfoldable pub turn : List (Text × ℕ) → Pass → Pass × Bool → Option Ending → Option Ending
unfolding concluded
turn [] p next more = some (done (exhausted p))
turn (_ ∷ _) p next more = concluded next.1 next.0.settled next.0 more

module _ (env : Environment) where
  open env use {others, unix_now, delete_objects}

  abbrev pub wait : Shared → Shared
  wait s = record (others s.waits s) { waits = s.waits + 1 }

  -- The row is gone: count it and keep the claim.
  abbrev pub freed : Pass → Database → Claim → ℕ → Pass
  freed p db claim size = record {
    shared = record p.shared { db = db };
    usage = p.usage -ℤ pos size;
    result = record p.result {
      evicted = p.result.evicted + 1;
      bytes_freed = p.result.bytes_freed + size;
    };
    deletion = hold p.deletion claim;
    settled = true;
  }

  -- The candidate stays: its claim goes out of scope.
  abbrev pub kept : Pass → Claim → Pass
  kept p claim = record p {
    shared = record p.shared { in_flight = drop_claim p.shared.in_flight claim };
    settled = true;
  }

  abbrev pub evicted : Pass → Claim → Option ℕ × Database → Pass
  evicted p claim (none, db) = kept p claim
  evicted p claim (some size, db) = freed p db claim size

  -- One candidate that was claimed: the delete waits for the database.
  unfoldable pub evict_claimed : ℕ → Pass → Text → Claim → Pass
  evict_claimed at p hash claim =
      let q = record p { shared = wait p.shared } in
      evicted q claim (evict_object q.shared.db hash at)

  unfoldable pub candidate_step : ℕ → Pass → Text → Pass
  unfolding evict_claimed
  candidate_step at p hash = elim (claim_delete p.shared.in_flight hash) [
    | err busy ↦ p
    | ok (s, claim) ↦
        evict_claimed at (record p { shared = record p.shared { in_flight = s } }) hash claim
  ]

  -- The `for` loop: `usage` is compared with `low` behind each candidate; it has changed only if the
  -- candidate went.
  unfoldable pub evict_batch : ℕ → ℕ → List (Text × ℕ) → Pass → Pass
  unfolding candidate_step
  evict_batch low at [] p = p
  evict_batch low at (c ∷ cs) p =
      let q = candidate_step at p c.0 in
      let rest = evict_batch low at cs q in if ltb_ℤ (pos low) q.usage then rest else q

  abbrev finished : Pass → State × List Text × Bool → Pass × Bool
  finished p (s, left, deleted) = (
    record p { shared = record p.shared { in_flight = s; blobs = left }; deletion = nothing },
    deleted,
  )

  -- The blobs of a batch go, then its claims.
  unfoldable pub finish_batch : Pass → Pass × Bool
  finish_batch p = finished p (finish delete_objects p.shared.in_flight p.shared.blobs p.deletion)

  unfoldable pub one_batch : ℕ → ℕ → List (Text × ℕ) → Pass → Pass × Bool
  unfolding evict_batch finish_batch
  one_batch low at candidates p =
      finish_batch
        (evict_batch low at candidates (record p { deletion = nothing; settled = false }))

  -- The `while` loop on fuel; `none` means that the fuel ran out.
  unfoldable pub rounds : ℕ → ℕ → Pass → Option Ending
  unfolding one_batch turn
  rounds zero low p = none
  rounds (suc fuel) low p =
      let q = record p { shared = wait p.shared } in
      let at = unix_now p.shared.waits in
      let candidates = evictable q.shared.db batch_size at in
      let next = one_batch low at candidates q in
      let more = rounds fuel low next.0 in
      if ltb_ℤ (pos low) p.usage then turn candidates q next more else some (done p)

  abbrev start : Shared → Pass
  start s =
      let (usage, db) = reconcile_total_bytes s.db in
      record {
        shared = record s { db = db };
        usage = usage;
        result = record { evicted = 0; bytes_freed = 0; candidates_exhausted = false };
        deletion = nothing;
        settled = false;
      }

  unfoldable pub evict : ℕ → ℕ → Shared → Option Ending
  unfolding rounds
  evict fuel low s = rounds fuel low (start (wait s))

  -- `tick`: a pass only from the high watermark on. The watermarks of `GcConfig` are parameters, since
  -- they are computed in floating point.
  unfoldable pub tick : ℕ → ℕ → ℕ → Shared → Tick
  unfolding evict
  tick fuel high low s =
      let t = wait s in if ltb_ℤ t.db.total_bytes (pos high) then idle t else ran (evict fuel low t)
