-- ===== src/Upload/Kept.antt =====
-- crates/garret-pusher/src/main.rs: what the store of a NAR keeps of it, and what is signed.
use garret.Common.{
  bind-eq-some, some-injective, ℕ, ◌≤◌, ◌≡◌, refl, sym, ap, subst, ◌∙◌, Option, none, some, List,
  [], ◌∷◌, Text, length,
}
use garret.Common.Result.{Result, ok, err, ok-injective}
use garret.Db.Schema.{Object, Database}
use garret.Db.Objects.{insert_object}
use garret.StorePath.Base32.{sha256_nix32}
use garret.StorePath.Frame.{read_preamble}
use garret.Narinfo.{sign}
use garret.Storage.Stream.{Item, Effect, PutError, put_streaming, reserve_of}
use garret.Storage.Stream.Fill.{bytes}
use garret.Storage.Stream.Stored.{StoredAs}
use garret.Verify.{new_checker, max_compressed_len}
use garret.Verify.Nar.{Outcome, verified}
use garret.Verify.Inline.{chunks}
use garret.Verify.Decoding.{IsClaimed}
use garret.Verify.Stored.{put_verified-IsClaimed}
use garret.Upload.{Preamble, build_object, Verdict, Failure, Environment, digest_and_size, signed}
use garret.Upload.Store.{
  NarStore, nar_items, verdict_of, failure_of, blobs_after, failed_outcome, stored_as, put_nar,
}

-- The NAR behind a preamble is what the object says, S3 holds its bytes, and the object says of them
-- what they are.
pub record Holds {D : Type 0} (store : NarStore D) (object : Object) (leftover : Text)
    (stream : List Item) : Type 0 where
  pub is_checked :
      IsClaimed store.zstd object.nar_hash object.nar_size (chunks (nar_items leftover stream))
  pub effect : Effect
  pub stored :
      StoredAs store.s3 store.part_size
        (reserve_of store.s3 (max_compressed_len store.zstd object.nar_size) store.part_size)
        (bytes (nar_items leftover stream))
        effect
  pub hash :
      sha256_nix32 (store.zstd.sha256 (bytes (nar_items leftover stream))) ≡ some object.file_hash
  pub size : object.file_size ≡ length (bytes (nar_items leftover stream))

sign-sigs :
    (object : Object) (dir : Text) (keys : List (Text → Text)) (sigs : List Text)
    → sign (record object { sigs = sigs }) dir keys ≡ sign object dir keys
unfolding sign
sign-sigs object dir [] sigs = refl
sign-sigs object dir (k ∷ keys) sigs = refl

digest_result :
    (outcome : Option Verdict) (result : Result (Text × ℕ) Failure) (blobs : List Text)
    {x : Text × ℕ}
    → digest_and_size (record { outcome = outcome; result = result; blobs = blobs }) ≡ ok x
    → result ≡ ok x
digest_result none (ok y) blobs e = cc
digest_result none (err f) blobs e = cc
digest_result (some Verdict.accepted) result blobs e = e
digest_result (some Verdict.failed) result blobs e = cc
digest_result (some Verdict.refused) result blobs e = cc

module _ {D : Type 0} (store : NarStore D) (positive : 1 ≤ store.part_size) where
  -- What the store of a NAR says when it succeeds.
  pub Kept : Object → Text → List Item → Text × ℕ → Type 0
  Kept object leftover stream x =
      IsClaimed store.zstd object.nar_hash object.nar_size (chunks (nar_items leftover stream))
      × ((effect : Effect) × StoredAs store.s3 store.part_size
            (reserve_of store.s3 (max_compressed_len store.zstd object.nar_size) store.part_size)
            (bytes (nar_items leftover stream)) effect)
      × (x ≡ (
        store.zstd.sha256 (bytes (nar_items leftover stream)),
        length (bytes (nar_items leftover stream)),
      ))

  stored_as-Kept :
      (key : Text) (blobs : List Text) (outcome : Option Outcome) (object : Object)
      (leftover : Text) (stream : List Item) (put : Result (Text × ℕ) PutError × Effect)
      {x : Text × ℕ}
      → put_streaming store.s3 store.fuel store.part_size store.max_parts_in_flight
          (max_compressed_len store.zstd object.nar_size)
          (verified store.zstd
            (new_checker store.zstd object.nar_hash object.nar_size)
            (nar_items leftover stream)).0
        ≡ put
      → digest_and_size (stored_as store key blobs outcome put) ≡ ok x
      → Kept object leftover stream x
  unfolding Kept
  stored_as-Kept key blobs outcome object leftover stream (err f, effect) p e = cc (
      digest_result (verdict_of (failed_outcome store outcome f)) (err (failure_of f))
        (blobs_after key blobs effect) e)
  stored_as-Kept key blobs outcome object leftover stream (ok (taken, n), effect) p e =
      let (accepts, claimed, whole, size, stored) =
        put_verified-IsClaimed store.zstd store.s3 store.fuel store.part_size
          store.max_parts_in_flight object.nar_hash object.nar_size (nar_items leftover stream)
          positive p in
      (
        claimed,
        (effect, stored),
        ok-injective (
              sym (
                digest_result (verdict_of outcome) (ok (store.zstd.sha256 taken, n))
                  (blobs_after key blobs effect) e))
            ∙ ap (λ t. (store.zstd.sha256 t, n)) whole
            ∙ ap (λ k. (store.zstd.sha256 (bytes (nar_items leftover stream)), k)) size,
      )

  pub put_nar-Kept :
      (key leftover : Text) (stream : List Item) (object : Object) (blobs : List Text)
      {x : Text × ℕ}
      → digest_and_size (put_nar store key leftover stream object blobs) ≡ ok x
      → Kept object leftover stream x
  unfolding put_nar
  put_nar-Kept key leftover stream object blobs e =
      stored_as-Kept key blobs _ object leftover stream _ refl e

  pub signed-Holds :
      (keys : List (Text → Text)) (dir : Text) (object : Object) (leftover : Text)
      (stream : List Item) (x : Text × ℕ) {o : Object}
      → Kept object leftover stream x
      → signed keys dir object x ≡ some o
      → Holds store o leftover stream
        × (sign o dir keys ≡ some o.sigs)
        × (o ≡ record object { file_hash = o.file_hash; file_size = o.file_size; sigs = o.sigs })
  unfolding Kept
  signed-Holds keys dir object leftover stream x (claimed, (effect, stored), same) e =
      let (file_hash, e1, f1) = bind-eq-some (sha256_nix32 x.0) _ e in
      let (sigs, e2, f2) =
        bind-eq-some (sign (record object { file_hash = file_hash; file_size = x.1 }) dir keys) _
          f1 in
      subst
        (λ (o : Object).
          Holds store o leftover stream
          × (sign o dir keys ≡ some o.sigs)
          × (o ≡ record object { file_hash = o.file_hash; file_size = o.file_size; sigs = o.sigs }))
        (some-injective f2)
        (
          record {
            is_checked = claimed;
            effect = effect;
            stored = stored;
            hash = ap (λ (y : Text × ℕ). sha256_nix32 y.0) (sym same) ∙ e1;
            size = ap (λ (y : Text × ℕ). y.1) same;
          },
          sign-sigs (record object { file_hash = file_hash; file_size = x.1 }) dir keys sigs ∙ e2,
          refl,
        )

-- What an upload under a hash has done when it is created: the body splits into a preamble and a NAR,
-- the preamble gives an object, and with the file hash, the file size and the signatures filled in
-- that object is inserted.
pub record Created {D : Type 0} (store : NarStore D) (env : Environment) (hash subject : Text)
    (body : List Item) (db' : Database) : Type 0 where
  pub preamble : Preamble
  pub leftover : Text
  pub stream : List Item
  pub reads : read_preamble env.from_json [] body ≡ ok (preamble, leftover, stream)
  pub built : Object
  pub builds : build_object env.decode hash preamble env.store_dir subject ≡ some built
  pub object : Object
  pub fills : object ≡ record built {
    file_hash = object.file_hash;
    file_size = object.file_size;
    sigs = object.sigs;
  }
  pub holds : Holds store object leftover stream
  pub signs : sign object env.store_dir env.keys ≡ some object.sigs
  pub db : Database
  pub at : ℕ
  pub inserts : insert_object db object at ≡ ok db'
