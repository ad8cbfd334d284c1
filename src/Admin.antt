-- ===== src/Admin.antt =====
-- crates/garret-pusher/src/admin.rs: the commands of the admin socket. Each wait for the database is
-- one where other tasks may change what is shared (`Gc.Environment`). The parser of a request, the
-- writer of a response and the texts of errors are left out: an error is the reason for it.
pub mod Dry
pub mod Commands
pub mod Removed
pub mod Deletes
pub mod Pruned
pub mod Sigs
pub mod Chunks
pub mod Resigned
mod Tests
use garret.Common.{
  mem, ℕ, ◌+◌, Bool, true, false, not, Option, none, some, List, [], ◌∷◌, ◌++◌, map, if◌then◌else◌,
  Text, text_eq, any, filter, length, take, drop,
}
use garret.Common.Int.{ℤ}
use garret.Common.Result.{Result, ok, err, map_err}
use garret.InFlight.{State}
use garret.Db.Schema.{Object, Database, ObjectBrief}
use garret.Db.Objects.{
  file_size, delete_object, get_object, update_sigs, all_hashes, object_count, total_bytes,
}
use garret.Db.Evict.{PinError, pin, unpin}
use garret.Db.Prune.{PruneError, prunable, delete_pruned, sum_brief, chunks}
use garret.Db.Negotiate.{pushed_by}
use garret.Deletion.{Deletion, BusyPath, nothing, claim_all, queue_blob, finish, drop_all}
use garret.Narinfo.{sign, verify}
use garret.Gc.{Shared, PassResult, Ending, Environment, wait, evict, done, failed}
use garret.Fsck.{Repair, FsckReport, run}
use garret.Storage.{Blob}

-- Why a command failed.
pub data Failure : Type 0 where
  busy : BusyPath → Failure
  blobs_left : Failure
  cannot_prune : PruneError → Failure
  cannot_pin : PinError → Failure
  no_keys : Failure
  backup_failed : Failure
  no_gc : Failure
  out_of_fuel : Failure

pub record Deleted : Type 0 where
  pub deleted : ℕ
  pub bytes_freed : ℕ
  pub missing : List Text

-- The hashes without what was seen before.
unfoldable pub unseen : List Text → List Text → List Text
unseen seen [] = []
unseen seen (h ∷ hs) =
    let rest = unseen (h ∷ seen) hs in
    let skipped = unseen seen hs in if mem h seen then skipped else h ∷ rest

-- The local variables of `delete`.
pub record Work : Type 0 where
  pub shared : Shared
  pub deletion : Deletion
  pub done : Deleted

abbrev begin : Shared → Deletion → Work
begin s d = record {
  shared = s;
  deletion = d;
  done = record { deleted = 0; bytes_freed = 0; missing = [] };
}

-- A dry run looks the size up, a run deletes the row.
abbrev pub freed_by : Bool → Database → Text → Option ℕ × Database
freed_by true db hash = (file_size db hash, db)
freed_by false db hash = delete_object db hash

abbrev pub queued : Bool → Deletion → Text → Deletion
queued true d hash = d
queued false d hash = queue_blob d hash

-- What a path's row, or that it has none, adds.
abbrev pub counted : Bool → Text → Work → Option ℕ → Work
counted dry hash w none = record w {
  done = record w.done { missing = w.done.missing ++ hash ∷ [] };
}
counted dry hash w (some freed) = record w {
  deletion = queued dry w.deletion hash;
  done = record w.done { deleted = w.done.deleted + 1; bytes_freed = w.done.bytes_freed + freed };
}

-- `<hash>-<name>`.
abbrev pub basenames : List ObjectBrief → List Text
basenames rows = map (λ (r : ObjectBrief). r.store_path_hash ++ b'-' ∷ r.name) rows

abbrev pub hashes_of : List ObjectBrief → List Text
hashes_of rows = map (λ (r : ObjectBrief). r.store_path_hash) rows

-- What `finish` leaves.
abbrev pub finished : Shared → State × List Text × Bool → Bool × Shared
finished s (in_flight, left, deleted) = (deleted, record s { in_flight = in_flight; blobs = left })

abbrev pub reported {ℓ} : {A : Type ℓ} → A → Bool × Shared → Result A Failure × Shared
reported a (true, s) = (ok a, s)
reported a (false, s) = (err blobs_left, s)

abbrev pub queue_all : Deletion → List Text → Deletion
queue_all d [] = d
queue_all d (h ∷ hs) = queue_all (queue_blob d h) hs

abbrev retained :
    List ObjectBrief
    → Result Deleted Failure × Shared
    → Result (List ObjectBrief × ℕ) Failure × Shared
retained matched (err e, s) = (err e, s)
retained matched (ok d, s) = (
  ok (filter (λ (r : ObjectBrief). not (mem r.store_path_hash d.missing)) matched, d.bytes_freed),
  s,
)

-- The response's fields.
abbrev listing :
    Result (List ObjectBrief × ℕ) Failure × Shared → Result (List Text × ℕ) Failure × Shared
listing (err e, s) = (err e, s)
listing (ok (rows, bytes), s) = (ok (basenames rows, bytes), s)

module _ (env : Environment) where
  open env use {unix_now, delete_objects}

  abbrev pub concluded {ℓ} : {A : Type ℓ} → A → Shared → Deletion → Result A Failure × Shared
  concluded a s d = reported a (finished s (finish delete_objects s.in_flight s.blobs d))

  -- The `for` loop: one wait to a path.
  abbrev pub delete_one : Bool → Text → Work → Work
  delete_one dry hash w =
      let s = wait env w.shared in
      let result = freed_by dry s.db hash in
      counted dry hash (record w { shared = record s { db = result.1 } }) result.0

  unfoldable pub delete_each : Bool → List Text → Work → Work
  delete_each dry [] w = w
  delete_each dry (hash ∷ hashes) w = delete_each dry hashes (delete_one dry hash w)

  abbrev pub delete_claimed :
      List Text → Shared → State × Result Deletion BusyPath → Result Deleted Failure × Shared
  delete_claimed hashes s (in_flight, err e) = (err (busy e), record s { in_flight = in_flight })
  delete_claimed hashes s (in_flight, ok d) =
      let w = delete_each false hashes (begin (record s { in_flight = in_flight }) d) in
      concluded w.done w.shared w.deletion

  unfoldable pub delete : Shared → List Text → Bool → Result Deleted Failure × Shared
  unfolding unseen delete_each
  delete s hashes true =
      let w = delete_each true (unseen [] hashes) (begin s nothing) in (ok w.done, w.shared)
  delete s hashes false =
      delete_claimed (unseen [] hashes) s (claim_all s.in_flight (unseen [] hashes))

  unfoldable pub delete_listed :
      Shared → List ObjectBrief → Bool → Result (List ObjectBrief × ℕ) Failure × Shared
  unfolding delete
  delete_listed s matched true = (ok (matched, sum_brief matched), s)
  delete_listed s matched false = retained matched (delete s (hashes_of matched) false)

  unfoldable pub delete_pushed_by :
      Shared → Text → Option ℕ → Bool → Result (List Text × ℕ) Failure × Shared
  unfolding delete_listed
  delete_pushed_by s subject since dry =
      let t = wait env s in listing (delete_listed t (pushed_by t.db subject since) dry)

  -- The deletion of a prune that fails is dropped, with its claims.
  abbrev pub prune_deleted :
      List ObjectBrief
      → Shared
      → Deletion
      → Result Database PruneError
      → Result (List Text × ℕ) Failure × Shared
  prune_deleted doomed s d (err e) =
      (err (cannot_prune e), record s { in_flight = drop_all s.in_flight d.claims })
  prune_deleted doomed s d (ok db) =
      concluded (basenames doomed, sum_brief doomed) (record s { db = db })
        (queue_all d (hashes_of doomed))

  abbrev pub prune_claimed :
      List ObjectBrief
      → Shared
      → State × Result Deletion BusyPath
      → Result (List Text × ℕ) Failure × Shared
  prune_claimed doomed s (in_flight, err e) = (err (busy e), record s { in_flight = in_flight })
  prune_claimed doomed s (in_flight, ok d) =
      prune_deleted doomed (record s { in_flight = in_flight }) d (delete_pruned s.db doomed)

  abbrev pub prune_listed :
      Bool → Shared → Result (List ObjectBrief) PruneError → Result (List Text × ℕ) Failure × Shared
  prune_listed dry s (err e) = (err (cannot_prune e), s)
  prune_listed true s (ok doomed) = (ok (basenames doomed, sum_brief doomed), s)
  prune_listed false s (ok doomed) =
      prune_claimed doomed s (claim_all s.in_flight (hashes_of doomed))

  -- One wait: the listing and the deletes are one hold of the lock.
  unfoldable pub prune : Shared → ℕ → Bool → Result (List Text × ℕ) Failure × Shared
  prune s before dry =
      let t = wait env s in prune_listed dry t (prunable t.db before (unix_now s.waits))
