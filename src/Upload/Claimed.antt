-- ===== src/Upload/Claimed.antt =====
-- What `store_upload` of crates/garret-pusher/src/main.rs leaves, with nothing else running.
use garret.Common.{
  some-injective, bind-eq-some, ℕ, ◌+◌, ◌-◌, ◌≡◌, refl, sym, ap, subst, ◌∙◌, true, none, some, List,
  [], ◌∷◌, arith, Text, All, inl, inr, Bool-cases, Option-cases, text_eq_refl, ltb,
}
use garret.Common.Result.{Result, ok, err, ok-injective, Result-cases}
use garret.InFlight.{State, Claim, claim, drop_claim}
use garret.InFlight.Claims.{upload, lookup, remove, remove-none}
use garret.InFlight.Counted.{claim_lem}
use garret.Db.Schema.{Object, Database}
use garret.Db.Objects.{DbError, insert_object}
use garret.StorePath.Names.{is_store_hash}
use garret.StorePath.Base32.{sha256_nix32}
use garret.StorePath.Files.{key_for}
use garret.Storage.Stream.{Item}
use garret.StorePath.Frame.{read_preamble}
use garret.StorePath.Frame.Exact.{IsByte}
use garret.Narinfo.{sign}
use garret.Gc.{Shared}
use garret.Upload.{
  build_object, Stored, Failure, Environment, digest_and_size, signed, wait, inserted, landed,
  record_stored, stored_blobs, store_upload,
}
use garret.Upload.Accepts.{IsGenuine, build_object-IsGenuine}

-- A claim that was free, taken and dropped again.
restored :
    (s : State) (h : Text)
    → lookup h s.claims ≡ none
    → drop_claim
        (record s { claims = (h, upload) ∷ s.claims; uploads = s.uploads + 1 })
        (record { hash = h })
      ≡ s
unfolding drop_claim lookup remove
restored s h n =
    let m = remove-none h s.claims n in
    let back : s.uploads + 1 - 1 ≡ s.uploads = omega arith in rw (text_eq_refl h, m, back) refl

pub drop_claim-claim :
    (s : State) (h : Text) (r : State × Claim) → claim s h ≡ ok r → drop_claim r.0 r.1 ≡ s
drop_claim-claim s h r e = elim (Bool-cases (ltb 0 s.quiescers)) [
  | inl t ↦ cc ((claim_lem s h).0 (ground arith), e)
  | inr f ↦
      let open_gate : s.quiescers ≡ 0 = ground arith in
      elim (Option-cases (lookup h s.claims)) [
        | inr (k, l) ↦ cc ((claim_lem s h).1 k open_gate l, e)
        | inl n ↦
            ap (λ (x : State × Claim). drop_claim x.0 x.1)
              (ok-injective (sym e ∙ (claim_lem s h).2 open_gate n))
            ∙ restored s h n
      ]
]

-- What a stored upload leaves: on success the insert of a genuine object, and otherwise the database
-- as it was; the claim is dropped.
abbrev pub Stores :
    Environment → Database → State → Text → Claim → Result ℕ Failure × Shared → Type 0
Stores env db fl hash c (ok size, t) =
    ((object : Object) × (at : ℕ) × IsGenuine env.store_dir hash object
      × (insert_object db object at ≡ ok t.db))
    × (t.in_flight ≡ drop_claim fl c)
Stores env db fl hash c (err e, t) = (t.db ≡ db) × (t.in_flight ≡ drop_claim fl c)

inserted-Stores :
    (env : Environment) (db : Database) (s : Shared) (hash : Text) (c : Claim) (object : Object)
    → s.db ≡ db
    → IsGenuine env.store_dir hash object
    → Stores env db s.in_flight hash c (inserted env s c object)
inserted-Stores env db s hash c object same genuine =
    landed-Stores (insert_object s.db object (env.unix_now s.waits))
      (λ d f. subst (λ x. insert_object x object (env.unix_now s.waits) ≡ ok d) same f)
  where
    landed-Stores :
        (r : Result Database DbError)
        → ((d : Database) → r ≡ ok d → insert_object db object (env.unix_now s.waits) ≡ ok d)
        → Stores env db s.in_flight hash c (landed s c object r)
    landed-Stores (err e) f = (same, refl)
    landed-Stores (ok d) f = ((object, env.unix_now s.waits, genuine, f d refl), refl)

-- What the server fills in leaves an object genuine.
signed-IsGenuine :
    (keys : List (Text → Text)) (dir hash : Text) (object : Object) (x : List ℕ × ℕ) {o : Object}
    → IsGenuine dir hash object
    → signed keys dir object x ≡ some o
    → IsGenuine dir hash o
signed-IsGenuine keys dir hash object x g e =
    let (file_hash, e1, f1) = bind-eq-some (sha256_nix32 x.0) _ e in
    let (sigs, e2, f2) =
      bind-eq-some (sign (record object { file_hash = file_hash; file_size = x.1 }) dir keys) _
        f1 in
    subst (IsGenuine dir hash) (some-injective f2) record {
      named = g.named;
      path = g.path;
      key = g.key;
      refers = g.refers;
      derived = g.derived;
      nar = g.nar;
      line = g.line;
    }

module _ (env : Environment) (alone : (n : ℕ) (s : Shared) → env.others n s ≡ s) where
  moved :
      (db : Database) (fl fl' : State) (hash : Text) (c : Claim) (r : Result ℕ Failure × Shared)
      → fl ≡ fl'
      → Stores env db fl hash c r
      → Stores env db fl' hash c r
  moved db fl fl' hash c r e v = subst (λ x. Stores env db x hash c r) e v

  record_stored-Stores :
      (s : Shared) (hash : Text) (c : Claim) (object : Object) (r : Stored)
      → IsGenuine env.store_dir hash object
      → Stores env s.db s.in_flight hash c (record_stored env s c object r)
  unfolding record_stored
  record_stored-Stores s hash c object r genuine = elim (Result-cases (digest_and_size r)) [
    | inr (e, f) ↦ rw (f, record_stored) (refl, refl)
    | inl (x, f) ↦ elim (Option-cases (signed env.keys env.store_dir object x)) [
      | inl n ↦ rw (f, n, record_stored) (refl, refl)
      | inr (o, g) ↦
          let same : wait env s ≡ record s { waits = s.waits + 1 } =
            ap (λ (t : Shared). record t { waits = s.waits + 1 }) (alone s.waits s) in
          rw (f, g, record_stored)
            (moved s.db (wait env s).in_flight s.in_flight hash c (inserted env (wait env s) c o)
              (ap (λ (t : Shared). t.in_flight) same)
              (inserted-Stores env s.db (wait env s) hash c o (ap (λ (t : Shared). t.db) same)
                (signed-IsGenuine env.keys env.store_dir hash object x genuine g)))
    ]
  ]

  pub waited : (s : Shared) → ((wait env s).db ≡ s.db) × ((wait env s).in_flight ≡ s.in_flight)
  waited s = (
    ap (λ (t : Shared). t.db) (alone s.waits s),
    ap (λ (t : Shared). t.in_flight) (alone s.waits s),
  )

  pub store_upload-Stores :
      (s : Shared) (hash subject : Text) (body : List Item) (c : Claim)
      → ((text bytes : Text) → env.decode text ≡ some bytes → All IsByte bytes)
      → is_store_hash hash ≡ true
      → Stores env s.db s.in_flight hash c (store_upload env s hash subject body c)
  unfolding store_upload
  store_upload-Stores s hash subject body c small ok_hash =
      elim (Result-cases (read_preamble env.from_json [] body)) [
        | inr (e, f) ↦ rw (f, store_upload) (refl, refl)
        | inl (x, f) ↦
            elim (Option-cases (build_object env.decode hash x.0 env.store_dir subject)) [
              | inl n ↦ rw (f, n, store_upload) (refl, refl)
              | inr (object, g) ↦
                  let t = wait env s in
                  let r = env.put (key_for hash) x.1 x.2 object t.blobs in
                  let genuine =
                    build_object-IsGenuine env.decode hash x.0 env.store_dir subject small ok_hash
                      g in
                  rw (f, g, store_upload)
                    (moved s.db t.in_flight s.in_flight hash c
                      (record_stored env (stored_blobs env t r) c object r) (waited s).1
                      (subst
                        (λ d.
                          Stores env d t.in_flight hash c
                            (record_stored env (stored_blobs env t r) c object r))
                        (waited s).0
                        (record_stored-Stores (stored_blobs env t r) hash c object r genuine)))
            ]
      ]
