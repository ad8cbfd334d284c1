-- ===== src/Upload/Outcome.antt =====
-- What an upload leaves, by its answer: `upload` and `store_upload` of
-- crates/garret-pusher/src/main.rs with nothing else running.
use garret.Common.{
  ℕ, ◌≡◌, refl, ap, subst, ◌∙◌, true, false, some, List, Text, All, inl, inr, Bool-cases,
}
use garret.Storage.Stream.{Item}
use garret.Common.Result.{Result, ok, err, Result-cases}
use garret.InFlight.{State, Claim, Refused, claim, drop_claim, is_quiescing}
use garret.Db.Schema.{Object, Database}
use garret.Db.Objects.{exists, insert_object}
use garret.StorePath.Names.{is_store_hash}
use garret.StorePath.Frame.Exact.{IsByte}
use garret.Gc.{Shared}
use garret.Upload.{
  Failure, bad_request, internal, Environment, wait, store_upload, Answer, created, already_there,
  in_progress, refused_push, shed, quiescing, being_deleted, broken, answered, claim_and_store,
  upload as handle,
}
use garret.Upload.Accepts.{IsGenuine}
use garret.Upload.Claimed.{drop_claim-claim, Stores, waited, store_upload-Stores}

-- What an upload leaves, by its answer: only `created` changes the database, by the insert of a
-- genuine object that was not in the cache.
abbrev pub Changes : Environment → Database → Text → Answer → Database → Type 0
Changes env db hash created db' =
    (exists db hash ≡ false)
    × (object : Object) × (at : ℕ) × IsGenuine env.store_dir hash object
    × (insert_object db object at ≡ ok db')
Changes env db hash already_there db' = db' ≡ db
Changes env db hash in_progress db' = db' ≡ db
Changes env db hash refused_push db' = db' ≡ db
Changes env db hash shed db' = db' ≡ db
Changes env db hash quiescing db' = db' ≡ db
Changes env db hash being_deleted db' = db' ≡ db
Changes env db hash broken db' = db' ≡ db

abbrev Means : Environment → Database → State → Text → Answer × Shared → Type 0
Means env db fl hash (answer, t) = Changes env db hash answer t.db × (t.in_flight ≡ fl)

answered-Means :
    (env : Environment) (db : Database) (fl fl' : State) (hash : Text) (c : Claim)
    (r : Result ℕ Failure × Shared)
    → exists db hash ≡ false
    → drop_claim fl' c ≡ fl
    → Stores env db fl' hash c r
    → Means env db fl hash (answered r)
answered-Means env db fl fl' hash c (ok size, t) new back v =
    ((new, v.0.0, v.0.1, v.0.2, v.0.3), v.1 ∙ back)
answered-Means env db fl fl' hash c (err bad_request, t) new back v = (v.0, v.1 ∙ back)
answered-Means env db fl fl' hash c (err internal, t) new back v = (v.0, v.1 ∙ back)

module _ (env : Environment) (alone : (n : ℕ) (s : Shared) → env.others n s ≡ s) where
  claim_and_store-Means :
      (s : Shared) (hash subject : Text) (body : List Item)
      → ((text bytes : Text) → env.decode text ≡ some bytes → All IsByte bytes)
      → is_store_hash hash ≡ true
      → Means env s.db s.in_flight hash (claim_and_store env s hash subject body)
  unfolding claim_and_store
  claim_and_store-Means s hash subject body small ok_hash =
      elim (Result-cases (claim s.in_flight hash)) [
        | inr (Refused.uploading, f) ↦ rw (f, claim_and_store) (refl, refl)
        | inr (Refused.deleting, f) ↦ rw (f, claim_and_store) (refl, refl)
        | inr (Refused.quiescing, f) ↦ rw (f, claim_and_store) (refl, refl)
        | inl (r, f) ↦
            let back = drop_claim-claim s.in_flight hash r f in
            let u = wait env (record s { in_flight = r.0 }) in
            let same = waited env alone (record s { in_flight = r.0 }) in
            let back_u : drop_claim u.in_flight r.1 ≡ s.in_flight =
              ap (λ fl. drop_claim fl r.1) same.1 ∙ back in
            elim (Bool-cases (exists u.db hash)) [
              | inl there ↦ rw (f, there, claim_and_store) (same.0, back_u)
              | inr new ↦
                  rw (f, new, claim_and_store)
                    (subst
                      (λ d.
                        Means env d s.in_flight hash
                          (answered (store_upload env u hash subject body r.1)))
                      same.0
                      (answered-Means env u.db s.in_flight u.in_flight hash r.1
                        (store_upload env u hash subject body r.1) new back_u
                        (store_upload-Stores env alone u hash subject body r.1 small ok_hash)))
            ]
      ]

  -- With nothing else running, an upload that is answered `created` has inserted an object that is
  -- genuine for the hash of the URL and was not in the cache, and any other answer leaves the
  -- database as it was; on every answer the in-flight map is as it was. Base64 decodes to bytes.
  pub upload-Changes :
      (s : Shared) (hash subject : Text) (body : List Item)
      → ((text bytes : Text) → env.decode text ≡ some bytes → All IsByte bytes)
      → Changes env s.db hash
          (handle env s hash subject body).0
          (handle env s hash subject body).1.db
        × ((handle env s hash subject body).1.in_flight ≡ s.in_flight)
  unfolding handle
  upload-Changes s hash subject body small =
      let t = wait env s in
      let same = waited env alone s in
      elim (Bool-cases (is_quiescing s.in_flight)) [
        | inl q ↦ rw q (refl, refl)
        | inr open_gate ↦ elim (Bool-cases (is_store_hash hash)) [
          | inr bad ↦ rw (open_gate, bad) (refl, refl)
          | inl ok_hash ↦ elim (Bool-cases (exists t.db hash)) [
            | inl there ↦ rw (open_gate, ok_hash, there) same
            | inr new ↦ elim (Bool-cases (env.slot_free t.waits)) [
              | inr full ↦ rw (open_gate, ok_hash, new, full) same
              | inl free ↦
                  rw (open_gate, ok_hash, new, free)
                    (settled s hash (claim_and_store env t hash subject body) same
                      (claim_and_store-Means t hash subject body small ok_hash))
            ]
          ]
        ]
      ]
    where
      settled :
          (s : Shared) (hash : Text) (r : Answer × Shared)
          → ((wait env s).db ≡ s.db) × ((wait env s).in_flight ≡ s.in_flight)
          → Means env (wait env s).db (wait env s).in_flight hash r
          → Changes env s.db hash r.0 r.1.db × (r.1.in_flight ≡ s.in_flight)
      settled s hash (answer, u) same m =
          (subst (λ d. Changes env d hash answer u.db) same.0 m.0, m.1 ∙ same.1)
