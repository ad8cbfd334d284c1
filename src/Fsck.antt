-- ===== src/Fsck.antt =====
-- crates/garret-pusher/src/fsck.rs: rows without their blob. A run waits for the drain, for S3, for
-- the database and between repairs; at each wait other tasks may change what is shared (`others`).
pub mod Classify
pub mod Repairs
mod Tests
use garret.Common.{
  ℕ, suc, ◌+◌, Bool, true, false, not, ◌&&◌, ◌||◌, Option, none, some, List, [], ◌∷◌, map,
  if◌then◌else◌, Text, text_eq, ltb, ◌==◌, is_some,
}
use garret.InFlight.{State, contains, quiesce, drop_guard, drained}
use garret.Db.Schema.{Database, ObjectBrief}
use garret.Db.Objects.{all_objects_brief, created_at, delete_object}
use garret.Storage.{Blob, orphan_hashes}
use garret.StorePath.Files.{key_for}
use garret.Gc.{Shared}

-- crates/garret-common/src/admin.rs.
pub data Repair : Type 0 where
  no live quiesced : Repair

pub record FsckRow : Type 0 where
  pub store_path_hash : Text
  pub name : Text

pub record FsckSizeMismatch : Type 0 where
  pub store_path_hash : Text
  pub name : Text
  pub db_size : ℕ
  pub s3_size : ℕ

pub record FsckReport : Type 0 where
  pub dangling : List FsckRow
  pub size_mismatches : List FsckSizeMismatch
  pub orphans : List Text
  pub repaired : ℕ
  pub quiesce_drained : Option Bool

pub data Drift : Type 0 where
  dangling : Drift
  size_mismatch : (db s3 : ℕ) → Drift

pub record Finding : Type 0 where
  pub hash : Text
  pub name : Text
  pub listed_at : ℕ
  pub drift : Drift

-- `HashMap::from_iter` keeps the last size of a hash.
unfoldable pub s3_size : Text → List Blob → Option ℕ
s3_size h [] = none
s3_size h (b ∷ blobs) = elim (s3_size h blobs) [
  | some size ↦ some size
  | none ↦ if text_eq b.hash h then some b.size else none
]

abbrev pub found : ObjectBrief → Drift → Finding
found row drift = record {
  hash = row.store_path_hash;
  name = row.name;
  listed_at = row.created_at;
  drift = drift;
}

abbrev pub drift_of : Bool → ObjectBrief → Option ℕ → Option Finding
drift_of verify_sizes row none = some (found row dangling)
drift_of verify_sizes row (some s3) =
    if verify_sizes && not (s3 == row.file_size)
    then some (found row (size_mismatch row.file_size s3))
    else none

-- `now - created_at < grace`, on `i64`.
abbrev pub guarded : State → ℕ → ℕ → ObjectBrief → Bool
guarded in_flight grace now row =
    contains in_flight row.store_path_hash || ltb now (row.created_at + grace)

unfoldable pub classify_row : List Blob → State → ℕ → ℕ → Bool → ObjectBrief → Option Finding
unfolding contains s3_size
classify_row blobs in_flight grace now verify_sizes row =
    if guarded in_flight grace now row
    then none
    else drift_of verify_sizes row (s3_size row.store_path_hash blobs)

abbrev pub filter_map {ℓ κ} : {A : Type ℓ} {B : Type κ} → (A → Option B) → List A → List B
filter_map f [] = []
filter_map f (a ∷ rest) = elim (f a) [ none ↦ filter_map f rest | some b ↦ b ∷ filter_map f rest ]

unfoldable pub classify_rows : List ObjectBrief → List Blob → State → ℕ → ℕ → Bool → List Finding
unfolding classify_row
classify_rows rows blobs in_flight grace now verify_sizes =
    filter_map (classify_row blobs in_flight grace now verify_sizes) rows

abbrev wired : Finding → List FsckRow × List FsckSizeMismatch → List FsckRow × List FsckSizeMismatch
wired f acc = elim f.drift [
  | dangling ↦ (record { store_path_hash = f.hash; name = f.name } ∷ acc.0, acc.1)
  | size_mismatch db s3 ↦ (
    acc.0,
    record { store_path_hash = f.hash; name = f.name; db_size = db; s3_size = s3 } ∷ acc.1,
  )
]

unfoldable pub to_wire : List Finding → List FsckRow × List FsckSizeMismatch
to_wire [] = ([], [])
to_wire (f ∷ findings) = wired f (to_wire findings)

abbrev pub same_time : Option ℕ → ℕ → Bool
same_time none listed_at = false
same_time (some at) listed_at = at == listed_at

-- One repair, in one wait for the database: the row only if it is the one that was listed.
unfoldable pub repair_row : Database → Finding → Bool × Database
unfolding created_at delete_object
repair_row db f =
    let result = delete_object db f.hash in
    if same_time (created_at db f.hash) f.listed_at
    then (is_some result.0, result.1)
    else (false, db)

pub record Environment : Type 0 where
  pub others : ℕ → Shared → Shared
  pub list_blobs : Shared → List Blob
  pub unix_now : ℕ → ℕ

module _ (env : Environment) where
  open env use {others, list_blobs, unix_now}

  abbrev pub wait : Shared → Shared
  wait s = record (others s.waits s) { waits = s.waits + 1 }

  abbrev plus : Bool → ℕ → ℕ
  plus true n = suc n
  plus false n = n

  -- `apply_repair`: how many rows it deleted.
  unfoldable pub apply_repair : Shared → List Finding → ℕ × Shared
  unfolding repair_row
  apply_repair s [] = (0, s)
  apply_repair s (f ∷ findings) =
      let t = wait s in
      let result = repair_row t.db f in
      let rest = apply_repair (record t { db = result.1 }) findings in
      (plus result.0 rest.0, rest.1)

  abbrev shut : Repair → Shared → Shared
  shut no s = s
  shut live s = s
  shut quiesced s = record s { in_flight = quiesce s.in_flight }

  -- The guard is dropped when the run returns.
  abbrev reopened : Repair → Shared → Shared
  reopened no s = s
  reopened live s = s
  reopened quiesced s = record s { in_flight = drop_guard s.in_flight }

  -- The drain ends when the count is zero, or at its timeout; `others` decides which.
  abbrev drain : Repair → Shared → Option Bool × Shared
  drain no s = (none, s)
  drain live s = (none, s)
  drain quiesced s = let t = wait s in (some (drained t.in_flight), t)

  abbrev repairs : Repair → Option Bool → Bool
  repairs no d = false
  repairs live d = true
  repairs quiesced none = true
  repairs quiesced (some d) = d

  unfoldable pub run : ℕ → Bool → Repair → Shared → FsckReport × Shared
  unfolding apply_repair classify_rows to_wire orphan_hashes all_objects_brief quiesce drained
      drop_guard key_for
  run grace verify_sizes repair s0 =
      let (quiesce_drained, s1) = drain repair (shut repair s0) in
      let s2 = wait s1 in
      let blobs = list_blobs s2 in
      let s3 = wait s2 in
      let rows = all_objects_brief s3.db in
      let findings = classify_rows rows blobs s3.in_flight grace (unix_now s3.waits) verify_sizes in
      let (dangling_rows, mismatches) = to_wire findings in
      let known = map (λ (r : ObjectBrief). r.store_path_hash) rows in
      let orphans = map key_for (orphan_hashes blobs known s3.in_flight grace) in
      let (repaired, s4) =
        if repairs repair quiesce_drained then apply_repair s3 findings else (0, s3) in
      (
        record {
          dangling = dangling_rows;
          size_mismatches = mismatches;
          orphans = orphans;
          repaired = repaired;
          quiesce_drained = quiesce_drained;
        },
        reopened repair s4,
      )
