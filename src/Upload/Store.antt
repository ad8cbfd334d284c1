-- ===== src/Upload/Store.antt =====
-- crates/garret-pusher/src/main.rs: the store of a NAR in `store_upload`, from the checked stream of
-- crates/garret-pusher/src/verify.rs and `put_streaming` of crates/garret-server/src/storage.rs.
use garret.Common.{ℕ, Bool, Option, none, some, List, [], ◌∷◌, if◌then◌else◌, Text}
use garret.Common.Result.{Result, ok, err}
use garret.Db.Schema.{Object}
use garret.Storage.Stream.{
  Item, S3, PutError, client, over_limit, s3_failure, out_of_fuel, Effect, nothing, put_object,
  completed_parts, aborted, put_streaming,
}
use garret.Verify.{Zstd, Checker, new_checker, max_compressed_len, feed, finish_check}
use garret.Verify.Nar.{Outcome, verified, checked_end}
use garret.Upload.{Verdict, Failure, bad_request, internal, Stored, Environment}

-- The limits and services that the store of a NAR uses. `late` says of a failure of S3 whether it came
-- once the body had been read to its end.
pub record NarStore (D : Type 0) : Type 0 where
  pub zstd : Zstd D
  pub s3 : S3
  pub fuel : ℕ
  pub part_size : ℕ
  pub max_parts_in_flight : ℕ
  pub late : Bool

-- The NAR: what followed the preamble in its chunk, and the rest of the body.
abbrev pub nar_items : Text → List Item → List Item
nar_items leftover stream = ok leftover ∷ stream

abbrev pub verdict_of : Option Outcome → Option Verdict
verdict_of none = none
verdict_of (some Outcome.accepted) = some Verdict.accepted
verdict_of (some (Outcome.refused reason)) = some Verdict.refused
verdict_of (some Outcome.failed) = some Verdict.failed

-- `From<anyhow::Error>`.
abbrev pub failure_of : PutError → Failure
failure_of (client e) = internal
failure_of over_limit = bad_request
failure_of s3_failure = internal
failure_of out_of_fuel = internal

abbrev pub blobs_after : Text → List Text → Effect → List Text
blobs_after key blobs nothing = blobs
blobs_after key blobs (put_object bytes) = key ∷ blobs
blobs_after key blobs (completed_parts parts) = key ∷ blobs
blobs_after key blobs aborted = blobs

module _ {D : Type 0} (store : NarStore D) where
  -- `into_outcome` once the stream was read to its end or to its first error.
  unfoldable pub read_outcome : Checker D → List Item → Option Outcome
  read_outcome c [] = (checked_end store.zstd (finish_check store.zstd c)).1
  read_outcome c (err e ∷ items) = none
  read_outcome c (ok chunk ∷ items) = elim (feed store.zstd c chunk) [
    | err reason ↦ some (Outcome.refused reason)
    | ok next ↦ read_outcome next items
  ]

  -- How far a put that failed had read.
  abbrev pub failed_outcome : Option Outcome → PutError → Option Outcome
  failed_outcome whole (client e) = whole
  failed_outcome whole over_limit = none
  failed_outcome whole s3_failure = if store.late then whole else none
  failed_outcome whole out_of_fuel = none

  abbrev pub stored_as :
      Text → List Text → Option Outcome → Result (Text × ℕ) PutError × Effect → Stored
  stored_as key blobs outcome (ok (taken, size), effect) = record {
    outcome = verdict_of outcome;
    result = ok (store.zstd.sha256 taken, size);
    blobs = blobs_after key blobs effect;
  }
  stored_as key blobs outcome (err e, effect) = record {
    outcome = verdict_of (failed_outcome outcome e);
    result = err (failure_of e);
    blobs = blobs_after key blobs effect;
  }

  unfoldable pub put_nar : Text → Text → List Item → Object → List Text → Stored
  put_nar key leftover stream object blobs =
      let checker = new_checker store.zstd object.nar_hash object.nar_size in
      let items = nar_items leftover stream in
      stored_as key blobs (read_outcome checker items) (
        put_streaming store.s3 store.fuel store.part_size store.max_parts_in_flight
          (max_compressed_len store.zstd object.nar_size) (verified store.zstd checker items).0)

abbrev pub with_store : {D : Type 0} → Environment → NarStore D → Environment
with_store env store = record env { put = put_nar store }
