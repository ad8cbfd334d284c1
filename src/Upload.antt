-- ===== src/Upload.antt =====
-- crates/garret-pusher/src/main.rs: the upload and negotiation handlers. `Environment` gathers their
-- parameters: what other tasks do at each wait, serde's parser, base64, the signing keys, whether a
-- slot of the upload semaphore is free, and the store of a NAR with its check, which is one step
-- here: it answers the verdict of crates/garret-pusher/src/verify.rs, the digest and the size stored,
-- and the blobs after it. Upload/Store fills it.
pub mod Accepts
pub mod Claimed
pub mod Outcome
pub mod Store
pub mod Kept
pub mod Verified
mod Tests
use garret.Common.{
  bind, ℕ, ◌+◌, Bool, true, false, not, ◌&&◌, ◌||◌, Option, none, some, List, [], ◌∷◌, ◌++◌,
  if◌then◌else◌, Text, text_lt, any, ◌==◌,
}
use garret.Common.Result.{Result, ok, err}
use garret.InFlight.{State, Claim, Refused, claim, drop_claim, is_quiescing}
use garret.Db.Schema.{Object, Database, sort_by}
use garret.Db.Objects.{DbError, exists, insert_object}
use garret.Db.Negotiate.{missing}
use garret.StorePath.Split.{strip_prefix}
use garret.StorePath.Names.{is_store_hash, store_basename}
use garret.StorePath.Base32.{sha256_nix32}
use garret.StorePath.Files.{key_for}
use garret.Storage.Stream.{Item}
use garret.StorePath.Frame.{
  Refusal, implausible_length, bad_json, body_stalled, body_broken, body_ended, read_preamble,
}
use garret.Narinfo.{normalize_hash, sign}
use garret.Gc.{Shared}

-- crates/garret-common/src/lib.rs.
pub record Preamble : Type 0 where
  pub store_path : Text
  pub nar_hash : Text
  pub nar_size : ℕ
  pub references : List Text
  pub deriver : Option Text
  pub ca : Option Text

abbrev pub is_line_break : ℕ → Bool
is_line_break c = c == b'\n' || c == b'\r'

abbrev pub single_line : Option Text → Bool
single_line none = true
single_line (some ca) = not (any is_line_break ca)

-- `collect` into an option, and `transpose`.
abbrev pub basenames : Text → List Text → Option (List Text)
basenames dir [] = some []
basenames dir (r ∷ rs) =
    bind (store_basename r dir) λ b. bind (basenames dir rs) λ bs. some (b ∷ bs)

abbrev pub basename : Text → Option Text → Option (Option Text)
basename dir none = some none
basename dir (some d) = bind (store_basename d dir) λ b. some (some b)

-- `<hash>-<name>` gives the name.
abbrev pub name_in : Text → Text → Text → Option Text
name_in hash path dir =
    bind (store_basename path dir) λ base. bind (strip_prefix hash base) (strip_prefix (b'-' ∷ []))

module _ (decode : Text → Option Text) where
  -- A refusal is `none`; its message is left out.
  unfoldable pub build_object : Text → Preamble → Text → Text → Option Object
  unfolding normalize_hash store_basename sort_by
  build_object hash p store_dir subject = bind (name_in hash p.store_path store_dir) λ name.
      bind (basenames store_dir p.references) λ references.
        bind (basename store_dir p.deriver) λ deriver.
          bind (if single_line p.ca then normalize_hash decode p.nar_hash else none) λ nar_hash.
            some (record {
              store_path_hash = hash;
              store_path = p.store_path;
              name = name;
              nar_hash = nar_hash;
              nar_size = p.nar_size;
              file_hash = [];
              file_size = 0;
              deriver = deriver;
              ca = p.ca;
              references = sort_by text_lt references;
              sigs = [];
              pushed_by = some subject;
            })

-- crates/garret-pusher/src/verify.rs: what the check of a NAR said; `none` where it never ended.
pub data Verdict : Type 0 where
  accepted failed refused : Verdict

pub data Failure : Type 0 where
  bad_request internal : Failure

-- A stall goes through `From<anyhow::Error>`; the others are `Error::refused`.
abbrev pub refusal_failure : Refusal → Failure
refusal_failure body_stalled = internal
refusal_failure implausible_length = bad_request
refusal_failure bad_json = bad_request
refusal_failure body_broken = bad_request
refusal_failure body_ended = bad_request

pub record Stored : Type 0 where
  pub outcome : Option Verdict
  pub result : Result (List ℕ × ℕ) Failure
  pub blobs : List Text

pub record Environment : Type 0 where
  pub others : ℕ → Shared → Shared
  pub unix_now : ℕ → ℕ
  pub from_json : Text → Option Preamble
  pub decode : Text → Option Text
  pub slot_free : ℕ → Bool
  pub keys : List (Text → Text)
  pub store_dir : Text
  pub put : Text → Text → List Item → Object → List Text → Stored

-- The `match` on the verdict, then `stored?`.
abbrev pub digest_and_size : Stored → Result (List ℕ × ℕ) Failure
digest_and_size r = elim r.outcome [
  | none ↦ elim r.result [ err f ↦ err f | ok x ↦ err internal ]
  | some failed ↦ err internal
  | some refused ↦ err bad_request
  | some accepted ↦ r.result
]

-- The object with what the server computed of the blob.
abbrev pub signed : List (Text → Text) → Text → Object → List ℕ × ℕ → Option Object
signed keys dir object (digest, size) = bind (sha256_nix32 digest) λ file_hash.
    let filled : Object = record object { file_hash = file_hash; file_size = size } in
    bind (sign filled dir keys) λ sigs. some (record filled { sigs = sigs })

abbrev pub released : Shared → Claim → Shared
released s c = record s { in_flight = drop_claim s.in_flight c }

abbrev pub landed : Shared → Claim → Object → Result Database DbError → Result ℕ Failure × Shared
landed s c object (err e) = (err internal, released s c)
landed s c object (ok db) = (ok object.file_size, released (record s { db = db }) c)

-- The answers: 201; 200 `exists` and `in-progress`; 400; 429; 503 for the gate and for a deletion; 500.
pub data Answer : Type 0 where
  created already_there in_progress refused_push shed quiescing being_deleted broken : Answer

abbrev pub answered : Result ℕ Failure × Shared → Answer × Shared
answered (ok size, s) = (created, s)
answered (err bad_request, s) = (refused_push, s)
answered (err internal, s) = (broken, s)

module _ (env : Environment) where
  open env use {others, unix_now, from_json, decode, slot_free, keys, store_dir, put}

  abbrev pub wait : Shared → Shared
  wait s = record (others s.waits s) { waits = s.waits + 1 }

  -- The claim goes when the insert is done.
  abbrev pub inserted : Shared → Claim → Object → Result ℕ Failure × Shared
  inserted s c object = landed s c object (insert_object s.db object (unix_now s.waits))

  -- After the store: the verdict, the signatures and the insert.
  unfoldable pub record_stored : Shared → Claim → Object → Stored → Result ℕ Failure × Shared
  unfolding insert_object sign sha256_nix32
  record_stored s c object r = elim (digest_and_size r) [
    | err e ↦ (err e, released s c)
    | ok x ↦ elim (signed keys store_dir object x) [
      | none ↦ (err internal, released s c)
      | some o ↦ inserted (wait s) c o
    ]
  ]

  abbrev pub stored_blobs : Shared → Stored → Shared
  stored_blobs s r = record s { blobs = r.blobs }

  unfoldable pub store_upload : Shared → Text → Text → List Item → Claim → Result ℕ Failure × Shared
  unfolding read_preamble build_object record_stored key_for
  store_upload s hash subject body c = elim (read_preamble from_json [] body) [
    | err e ↦ (err (refusal_failure e), released s c)
    | ok x ↦ elim (build_object decode hash x.0 store_dir subject) [
      | none ↦ (err bad_request, released s c)
      | some object ↦
          let t = wait s in
          let r = put (key_for hash) x.1 x.2 object t.blobs in
          record_stored (stored_blobs t r) c object r
    ]
  ]

  -- From the claim on, with a slot taken.
  unfoldable pub claim_and_store : Shared → Text → Text → List Item → Answer × Shared
  unfolding exists claim store_upload
  claim_and_store t hash subject body = elim (claim t.in_flight hash) [
    | err Refused.uploading ↦ (in_progress, t)
    | err Refused.deleting ↦ (being_deleted, t)
    | err Refused.quiescing ↦ (quiescing, t)
    | ok r ↦
        let u = wait (record t { in_flight = r.0 }) in
        if exists u.db hash
        then (already_there, released u r.1)
        else answered (store_upload u hash subject body r.1)
  ]

  unfoldable pub upload : Shared → Text → Text → List Item → Answer × Shared
  unfolding is_quiescing is_store_hash exists claim_and_store
  upload s hash subject body =
      let t = wait s in
      let go = claim_and_store t hash subject body in
      if is_quiescing s.in_flight
      then (quiescing, s)
      else if not (is_store_hash hash)
      then (refused_push, s)
      else if exists t.db hash
      then (already_there, t)
      else if slot_free t.waits
      then go
      else (shed, t)

  -- `missing_paths`, negotiation.
  unfoldable pub missing_paths : Shared → List Text → List Text × Shared
  unfolding missing
  missing_paths s hashes =
      let t = wait s in
      let (absent, db) = missing t.db hashes (unix_now s.waits) in (absent, record t { db = db })
