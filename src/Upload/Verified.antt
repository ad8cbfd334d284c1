-- ===== src/Upload/Verified.antt =====
-- What an upload that is answered `created` has stored and signed: `upload` of
-- crates/garret-pusher/src/main.rs with the check and the store of the NAR that it calls.
use garret.Common.{
  ℕ, ◌≤◌, ◌≡◌, refl, subst, some, List, [], Text, inl, inr, Bool-cases, Option-cases,
}
use garret.Common.Result.{Result, ok, err, Result-cases}
use garret.InFlight.{Claim, Refused, claim, is_quiescing}
use garret.Db.Schema.{Object, Database}
use garret.Db.Objects.{DbError, exists, insert_object}
use garret.StorePath.Names.{is_store_hash}
use garret.StorePath.Files.{key_for}
use garret.Storage.Stream.{Item}
use garret.StorePath.Frame.{read_preamble}
use garret.Narinfo.{sign}
use garret.Gc.{Shared}
use garret.Upload.{
  Preamble, build_object, Failure, Environment, digest_and_size, signed, wait, landed,
  record_stored, stored_blobs, store_upload, Answer, created, already_there, in_progress,
  refused_push, shed, quiescing, being_deleted, broken, answered, claim_and_store, bad_request,
  internal, upload as handle,
}
use garret.Upload.Store.{NarStore, put_nar, with_store}
use garret.Upload.Kept.{Holds, put_nar-Kept, signed-Holds, Created}

abbrev pub IfCreated : (Database → Type 0) → Answer → Database → Type 0
IfCreated P created db = P db
IfCreated P already_there db = Unit
IfCreated P in_progress db = Unit
IfCreated P refused_push db = Unit
IfCreated P shed db = Unit
IfCreated P quiescing db = Unit
IfCreated P being_deleted db = Unit
IfCreated P broken db = Unit

abbrev IfOk : (Database → Type 0) → Result ℕ Failure × Shared → Type 0
IfOk P (ok size, t) = P t.db
IfOk P (err e, t) = Unit

answered-IfCreated :
    (P : Database → Type 0) (r : Result ℕ Failure × Shared)
    → IfOk P r
    → IfCreated P (answered r).0 (answered r).1.db
answered-IfCreated P (ok size, t) p = p
answered-IfCreated P (err bad_request, t) p = tt
answered-IfCreated P (err internal, t) p = tt

module _ {D : Type 0} (store : NarStore D) (positive : 1 ≤ store.part_size) (plain : Environment)
    (hash subject : Text) (body : List Item) where
  env : Environment
  env = with_store plain store

  P : Database → Type 0
  P = Created store plain hash subject body

  landed-IfOk :
      (s : Shared) (c : Claim) (leftover : Text) (stream : List Item) (preamble : Preamble)
      (built object : Object)
      → read_preamble plain.from_json [] body ≡ ok (preamble, leftover, stream)
      → build_object plain.decode hash preamble plain.store_dir subject ≡ some built
      → Holds store object leftover stream
      → sign object plain.store_dir plain.keys ≡ some object.sigs
      → object ≡ record built {
        file_hash = object.file_hash;
        file_size = object.file_size;
        sigs = object.sigs;
      }
      → (r : Result Database DbError) → insert_object s.db object (plain.unix_now s.waits) ≡ r
      → IfOk P (landed s c object r)
  unfolding P
  landed-IfOk s c leftover stream preamble built object reads builds holds signs fills (err e) i =
      tt
  landed-IfOk s c leftover stream preamble built object reads builds holds signs fills (ok db') i =
      record {
        preamble = preamble;
        leftover = leftover;
        stream = stream;
        reads = reads;
        built = built;
        builds = builds;
        object = object;
        fills = fills;
        holds = holds;
        signs = signs;
        db = s.db;
        at = plain.unix_now s.waits;
        inserts = i;
      }

  recorded-IfOk :
      (s : Shared) (c : Claim) (key leftover : Text) (stream : List Item) (preamble : Preamble)
      (built : Object) (blobs : List Text)
      → read_preamble plain.from_json [] body ≡ ok (preamble, leftover, stream)
      → build_object plain.decode hash preamble plain.store_dir subject ≡ some built
      → IfOk P (record_stored env s c built (put_nar store key leftover stream built blobs))
  unfolding record_stored P env
  recorded-IfOk s c key leftover stream preamble built blobs reads builds =
      let r = put_nar store key leftover stream built blobs in
      elim (Result-cases (digest_and_size r)) [
        | inr (e, f) ↦ rw (f, record_stored) tt
        | inl (x, f) ↦ elim (Option-cases (signed plain.keys plain.store_dir built x)) [
          | inl n ↦ rw (f, n, record_stored) tt
          | inr (o, g) ↦
              let (holds, signs, fills) =
                signed-Holds store positive plain.keys plain.store_dir built leftover stream x
                  (put_nar-Kept store positive key leftover stream built blobs f) g in
              rw (f, g, record_stored)
                (landed-IfOk (wait env s) c leftover stream preamble built o reads builds holds
                  signs fills _ refl)
        ]
      ]

  store_upload-IfOk : (s : Shared) (c : Claim) → IfOk P (store_upload env s hash subject body c)
  unfolding store_upload env
  store_upload-IfOk s c = elim (Result-cases (read_preamble plain.from_json [] body)) [
    | inr (e, f) ↦ rw (f, store_upload) tt
    | inl (x, f) ↦
        elim (Option-cases (build_object plain.decode hash x.0 plain.store_dir subject)) [
          | inl n ↦ rw (f, n, store_upload) tt
          | inr (built, g) ↦
              let t = wait env s in
              rw (f, g, store_upload)
                (recorded-IfOk
                  (stored_blobs env t (put_nar store (key_for hash) x.1 x.2 built t.blobs)) c
                  (key_for hash) x.1 x.2 x.0 built t.blobs f g)
        ]
  ]

  claim_and_store-IfCreated :
      (s : Shared)
      → IfCreated P
          (claim_and_store env s hash subject body).0
          (claim_and_store env s hash subject body).1.db
  unfolding claim_and_store
  claim_and_store-IfCreated s = elim (Result-cases (claim s.in_flight hash)) [
    | inr (Refused.uploading, f) ↦ rw (f, claim_and_store) tt
    | inr (Refused.deleting, f) ↦ rw (f, claim_and_store) tt
    | inr (Refused.quiescing, f) ↦ rw (f, claim_and_store) tt
    | inl (r, f) ↦
        let u = wait env (record s { in_flight = r.0 }) in
        elim (Bool-cases (exists u.db hash)) [
          | inl there ↦ rw (f, there, claim_and_store) tt
          | inr new ↦
              rw (f, new, claim_and_store)
                (answered-IfCreated P (store_upload env u hash subject body r.1)
                  (store_upload-IfOk u r.1))
        ]
  ]

  upload-IfCreated :
      (s : Shared)
      → IfCreated P (handle env s hash subject body).0 (handle env s hash subject body).1.db
  unfolding handle
  upload-IfCreated s = elim (Bool-cases (is_quiescing s.in_flight)) [
    | inl q ↦ rw q tt
    | inr open_gate ↦ elim (Bool-cases (is_store_hash hash)) [
      | inr bad ↦ rw (open_gate, bad) tt
      | inl ok_hash ↦ elim (Bool-cases (exists (wait env s).db hash)) [
        | inl there ↦ rw (open_gate, ok_hash, there) tt
        | inr new ↦ elim (Bool-cases (env.slot_free (wait env s).waits)) [
          | inr full ↦ rw (open_gate, ok_hash, new, full) tt
          | inl free ↦ rw (open_gate, ok_hash, new, free) (claim_and_store-IfCreated (wait env s))
        ]
      ]
    ]
  ]

-- For a part size of at least one, and whatever other tasks do at each wait: an upload that is
-- answered `created` has read a preamble and a NAR, the NAR decodes to one of the hash and size that
-- the preamble claims, S3 has taken exactly its bytes, and the object of the preamble was inserted
-- with the hash and the size of those bytes and with the keys' signatures on it.
pub upload-Created :
    {D : Type 0} (store : NarStore D) (plain : Environment) (s t : Shared) (hash subject : Text)
    (body : List Item)
    → 1 ≤ store.part_size
    → handle (with_store plain store) s hash subject body ≡ (created, t)
    → Created store plain hash subject body t.db
unfolding env P
upload-Created store plain s t hash subject body positive e =
    subst (λ (r : Answer × Shared). IfCreated (Created store plain hash subject body) r.0 r.1.db) e
      (upload-IfCreated store positive plain hash subject body s)
