-- ===== src/Admin/Commands.antt =====
-- crates/garret-pusher/src/admin.rs: `resign`, `status` and `dispatch`. A backup is a parameter: SQLite
-- copies the file.
use garret.Common.{
  bind, ℕ, ◌+◌, Bool, true, false, ◌&&◌, Option, none, some, List, [], ◌∷◌, if◌then◌else◌, Text,
  text_eq, length,
}
use garret.Common.Int.{ℤ}
use garret.Common.Result.{Result, ok, err, map_err}
use garret.Db.Schema.{Object, Database}
use garret.Db.Objects.{get_object, update_sigs, all_hashes, object_count, total_bytes}
use garret.Db.Evict.{pin, unpin}
use garret.Db.Prune.{chunks}
use garret.Narinfo.{sign, verify}
use garret.Gc.{Shared, Ending, Environment, wait, evict, done, failed}
use garret.Fsck.{Repair, FsckReport, run, filter_map}
use garret.Admin.{
  Failure, blobs_left, cannot_pin, no_keys, backup_failed, no_gc, out_of_fuel, Deleted, delete,
  delete_pushed_by, prune,
}

abbrev pub texts_eq : List Text → List Text → Bool
texts_eq [] [] = true
texts_eq [] (y ∷ ys) = false
texts_eq (x ∷ xs) [] = false
texts_eq (x ∷ xs) (y ∷ ys) = text_eq x y && texts_eq xs ys

-- The rows of a chunk to update, and how many were refused.
pub record Tally : Type 0 where
  pub updates : List (Text × List Text)
  pub refused : ℕ

-- `const CHUNK`.
abbrev pub chunk : ℕ
chunk = 500

-- The keys: what each signs, and what each accepts as its signature.
pub record Keys : Type 0 where
  pub signers : List (Text → Text)
  pub checkers : List (Text → Text → Bool)
  pub store_dir : Text

abbrev pub refused_one : Tally → Tally
refused_one t = record t { refused = t.refused + 1 }

-- An update only where the signatures differ.
abbrev pub updated_one : Object → List Text → Tally → Tally
updated_one o sigs t =
    if texts_eq sigs o.sigs then t else record t { updates = (o.store_path_hash, sigs) ∷ t.updates }

module _ (keys : Keys) where
  open keys use {signers, checkers, store_dir}

  abbrev pub signed_one : Object → Option Tally → Option Tally
  signed_one o rest =
      bind (sign o store_dir signers) λ sigs. bind rest λ t. some (updated_one o sigs t)

  abbrev pub tallied : Bool → Object → Option Tally → Option Tally
  tallied true o rest = signed_one o rest
  tallied false o rest = bind rest λ t. some (refused_one t)

  -- The loop over the objects of a chunk; without a key nothing can be signed.
  unfoldable pub classify_sigs : List Object → Option Tally
  unfolding sign verify
  classify_sigs [] = some (record { updates = []; refused = 0 })
  classify_sigs (o ∷ objects) = tallied (verify o store_dir checkers) o (classify_sigs objects)

abbrev pub update_all : List (Text × List Text) → Database → Database
update_all [] db = db
update_all (u ∷ updates) db = update_all updates (update_sigs db u.0 u.1)

module _ (env : Environment) (keys : Keys) where
  -- One chunk: a wait to read its objects, and one to write the signatures.
  abbrev pub resign_tally : Shared → ℕ × ℕ → Option Tally → Option (ℕ × ℕ) × Shared
  resign_tally s sums none = (none, s)
  resign_tally s (resigned, refused) (some t) =
      let u = wait env s in
      (
        some (resigned + length t.updates, refused + t.refused),
        record u { db = update_all t.updates u.db },
      )

  abbrev pub resign_chunk : List Text → Shared → ℕ × ℕ → Option (ℕ × ℕ) × Shared
  resign_chunk hashes s sums =
      let t = wait env s in
      resign_tally t sums (classify_sigs keys (filter_map (get_object t.db) hashes))

  unfoldable pub resign_chunks :
      List (List Text) → Option (ℕ × ℕ) × Shared → Option (ℕ × ℕ) × Shared
  unfolding classify_sigs
  resign_chunks [] result = result
  resign_chunks (hashes ∷ rest) (none, s) = (none, s)
  resign_chunks (hashes ∷ rest) (some sums, s) = resign_chunks rest (resign_chunk hashes s sums)

  abbrev pub resigned_or : Option (ℕ × ℕ) × Shared → Result (ℕ × ℕ) Failure × Shared
  resigned_or (none, s) = (err no_keys, s)
  resigned_or (some sums, s) = (ok sums, s)

  -- The hashes come from a set; their order here is the rows' order.
  unfoldable pub resign : Shared → Result (ℕ × ℕ) Failure × Shared
  unfolding resign_chunks chunks
  resign s =
      let t = wait env s in
      let hashes = all_hashes t.db in
      resigned_or (resign_chunks (chunks (length hashes) chunk hashes) (some (0, 0), t))

-- crates/garret-common/src/admin.rs.
pub data Request : Type 0 where
  status gc_run resign_all : Request
  delete_paths : (hashes : List Text) (dry_run : Bool) → Request
  pin_path : (name hash : Text) (expires_at : Option ℕ) → Request
  unpin_path : (name : Text) → Request
  fsck : (verify_sizes : Bool) (repair : Repair) → Request
  prune_before : (before : ℕ) (dry_run : Bool) → Request
  backup : (path : Text) → Request
  delete_pushed : (subject : Text) (since : Option ℕ) (dry_run : Bool) → Request

pub data Response : Type 0 where
  usage : (objects : ℕ) (total : ℤ) (quota_bytes : Option ℕ) (uploads_in_flight : ℕ) → Response
  evicted : (count bytes_freed : ℕ) (candidates_exhausted : Bool) → Response
  resigned : (count refused : ℕ) → Response
  deleted : Deleted → Response
  pinned : Response
  unpinned : (removed : Bool) → Response
  audited : FsckReport → Response
  pruned : (names : List Text) (bytes_freed : ℕ) → Response
  copied : (bytes : ℕ) → Response
  deleted_pushed : (names : List Text) (bytes_freed : ℕ) → Response
  error : Failure → Response

-- The `[gc]` section: the quota, the low watermark and the grace of orphans. A pass has `fuel`.
pub record GcSettings : Type 0 where
  pub quota_bytes : ℕ
  pub low : ℕ
  pub orphan_grace : ℕ
  pub fuel : ℕ

abbrev pub quota_of : Option GcSettings → Option ℕ
quota_of none = none
quota_of (some g) = some g.quota_bytes

-- `result.unwrap_or_else`.
abbrev pub answer {ℓ} :
    {A : Type ℓ} → (A → Response) → Result A Failure × Shared → Response × Shared
answer f (ok a, s) = (f a, s)
answer f (err e, s) = (error e, s)

abbrev pub ended : Shared → Option Ending → Response × Shared
ended s none = (error out_of_fuel, s)
ended s (some (failed p)) = (error blobs_left, p.shared)
ended s (some (done p)) =
    (evicted p.result.evicted p.result.bytes_freed p.result.candidates_exhausted, p.shared)

abbrev pub written : Shared → Result Database Failure → Response × Shared
written s (err e) = (error e, s)
written s (ok db) = (pinned, record s { db = db })

abbrev pub backed_up : Shared → Option ℕ → Response × Shared
backed_up s none = (error backup_failed, s)
backed_up s (some bytes) = (copied bytes, s)

-- What the handlers know besides the tasks: the keys, the section, fsck's listing, and the backup,
-- which answers the size of the copy.
pub record Service : Type 0 where
  pub tasks : Environment
  pub keys : Keys
  pub gc : Option GcSettings
  pub fsck_env : garret.Fsck.Environment
  pub copy : Text → Option ℕ

module _ (service : Service) where
  open service use {tasks, keys, gc, fsck_env, copy}

  abbrev pub gc_command : Option GcSettings → Shared → Response × Shared
  gc_command none s = (error no_gc, s)
  gc_command (some g) s = ended s (evict tasks g.fuel g.low s)

  abbrev pub fsck_command : Option GcSettings → Bool → Repair → Shared → Response × Shared
  fsck_command none verify_sizes repair s = (error no_gc, s)
  fsck_command (some g) verify_sizes repair s =
      let result = run fsck_env g.orphan_grace verify_sizes repair s in (audited result.0, result.1)

  -- The count of uploads is read before the wait.
  unfoldable pub dispatch : Request → Shared → Response × Shared
  unfolding resign delete prune delete_pushed_by pin unpin object_count total_bytes evict run
  dispatch status s =
      let t = wait tasks s in
      (usage (object_count t.db) (total_bytes t.db) (quota_of gc) s.in_flight.uploads, t)
  dispatch gc_run s = gc_command gc s
  dispatch resign_all s = answer (λ sums. resigned sums.0 sums.1) (resign tasks keys s)
  dispatch (delete_paths hashes dry_run) s = answer deleted (delete tasks s hashes dry_run)
  dispatch (pin_path name hash expires_at) s =
      let t = wait tasks s in
      written t (map_err cannot_pin (pin t.db name hash expires_at (tasks.unix_now s.waits)))
  dispatch (unpin_path name) s =
      let t = wait tasks s in
      let result = unpin t.db name in (unpinned result.0, record t { db = result.1 })
  dispatch (fsck verify_sizes repair) s = fsck_command gc verify_sizes repair s
  dispatch (prune_before before dry_run) s =
      answer (λ r. pruned r.0 r.1) (prune tasks s before dry_run)
  dispatch (backup path) s = backed_up s (copy path)
  dispatch (delete_pushed subject since dry_run) s =
      answer (λ r. deleted_pushed r.0 r.1) (delete_pushed_by tasks s subject since dry_run)
