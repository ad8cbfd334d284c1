-- ===== src/Auth/Bearer/Subjects.antt =====
-- crates/garret-server/src/auth.rs: whom `bearer` lets in, and whom it sends away for good.
use garret.Common.{
  ℕ, ◌≡◌, refl, sym, ap, ◌∙◌, Option, none, some, List, ◌++◌, Text, bind, bind-eq-some, codes,
}
use garret.Common.Result.{Result, ok, err}
use garret.StorePath.Split.{strip_prefix, strip_prefix_sound}
use garret.Auth.{IssuerConfig, Claims, Permission, authorize}
use garret.Auth.Authorized.{authorize_iff}
use garret.Auth.Allowed.{Allows}
use garret.Auth.Keys.{cached_key, key_of}
use garret.Auth.Bearer.{
  validation_for, Tokens, Issuer, Denial, NoKey, not_in_set, not_fetched, unauthorized, malformed,
  untrusted_issuer, unknown_key, jwks_unavailable, invalid_token, Rejection, missing, invalid,
  refused, key_for_kid, subject_of, authorized, with_key, verify_kid, verify_token, issuer_named,
  trusted, route_by, bearer_of, check_routed, check, rejected, bearer,
}
use garret.Auth.Bearer.Issued.{IsIn, IsKey, IsVerified, key_for_kid-IsKey, issuer_named-IsIn}

module _ {K : Type 0} (tokens : Tokens K) where
  -- What a verdict on a token says.
  abbrev pub Judges : List (Issuer K) → ℕ → Text → Result Text Denial → Type 0
  Judges issuers now token (ok subject) =
      (cfg : IssuerConfig) × (claims : Claims) × IsVerified tokens issuers now token cfg claims
      × Allows cfg claims
      × (subject ≡ claims.iss ++ codes "#" ++ claims.sub)
  Judges issuers now token (err malformed) = Unit
  Judges issuers now token (err untrusted_issuer) = Unit
  Judges issuers now token (err unknown_key) = Unit
  Judges issuers now token (err jwks_unavailable) = Unit
  Judges issuers now token (err invalid_token) = Unit
  Judges issuers now token (err (unauthorized gate)) =
      (cfg : IssuerConfig) × (claims : Claims) × IsVerified tokens issuers now token cfg claims
      × (¬ Allows cfg claims)

  subject_of-Judges :
      (issuers : List (Issuer K)) (now : ℕ) (token : Text) (cfg : IssuerConfig) (claims : Claims)
      (permission : Permission)
      → authorize cfg claims ≡ permission
      → IsVerified tokens issuers now token cfg claims
      → Judges issuers now token (subject_of tokens claims permission)
  subject_of-Judges issuers now token cfg claims (ok done) p v =
      (cfg, claims, v, (authorize_iff cfg claims).0 p, refl)
  subject_of-Judges issuers now token cfg claims (err gate) p v =
      (cfg, claims, v, λ allowed. cc ((authorize_iff cfg claims).1 allowed, p))

  with_key-Judges :
      (issuers : List (Issuer K)) (now : ℕ) (token : Text) (issuer : Issuer K) (kid : Text)
      (key : Result K NoKey)
      → IsIn issuer issuers
      → tokens.unverified_issuer token ≡ some issuer.cfg.issuer
      → tokens.kid_of token ≡ some kid
      → ((k : K) → key ≡ ok k → IsKey tokens issuer now kid k)
      → Judges issuers now token (with_key tokens issuer.cfg token key)
  with_key-Judges issuers now token issuer kid (err not_in_set) i n h k = tt
  with_key-Judges issuers now token issuer kid (err not_fetched) i n h k = tt
  with_key-Judges issuers now token issuer kid (ok key) i n h k =
      decoded (tokens.decode (validation_for issuer.cfg) key token) refl
    where
      decoded :
          (claims : Option Claims)
          → tokens.decode (validation_for issuer.cfg) key token ≡ claims
          → Judges issuers now token (authorized tokens issuer.cfg claims)
      decoded none d = tt
      decoded (some claims) d =
          subject_of-Judges issuers now token issuer.cfg claims (authorize issuer.cfg claims) refl
            record {
              issuer = issuer;
              trusted = i;
              config = refl;
              named = n;
              kid = kid;
              has_kid = h;
              key = key;
              of_issuer = k key refl;
              decodes = d;
            }

  verify_kid-Judges :
      (issuers : List (Issuer K)) (now : ℕ) (token : Text) (issuer : Issuer K) (kid : Option Text)
      → IsIn issuer issuers
      → tokens.unverified_issuer token ≡ some issuer.cfg.issuer
      → tokens.kid_of token ≡ kid
      → Judges issuers now token (verify_kid tokens issuer now token kid).0
  unfolding cached_key
  verify_kid-Judges issuers now token issuer none i n h = tt
  verify_kid-Judges issuers now token issuer (some kid) i n h =
      with_key-Judges issuers now token issuer kid
        (key_for_kid tokens kid now issuer.keys (cached_key kid now issuer.keys)).0 i n h
        (λ k e.
          key_for_kid-IsKey tokens issuer kid now (key_of kid issuer.keys.by_kid) _ {key = k} refl
            e)

  trusted-Judges :
      (issuers : List (Issuer K)) (now : ℕ) (token name : Text) (found : Option (Issuer K))
      → tokens.unverified_issuer token ≡ some name
      → issuer_named tokens name issuers ≡ found
      → Judges issuers now token (check_routed tokens now token (trusted tokens found)).1
  unfolding verify_token
  trusted-Judges issuers now token name none n e = tt
  trusted-Judges issuers now token name (some issuer) n e =
      let (there, named) = issuer_named-IsIn tokens name issuers {found = issuer} e in
      verify_kid-Judges issuers now token issuer (tokens.kid_of token) there
        (n ∙ ap some (sym named)) refl

  check-Judges :
      (issuers : List (Issuer K)) (now : ℕ) (token : Text) (name : Option Text)
      → tokens.unverified_issuer token ≡ name
      → Judges issuers now token (check_routed tokens now token (route_by tokens issuers name)).1
  check-Judges issuers now token none n = tt
  check-Judges issuers now token (some name) n =
      trusted-Judges issuers now token name (issuer_named tokens name issuers) n refl

  -- What the answer to a request says.
  abbrev pub Means : List (Issuer K) → ℕ → Option Text → Result Text Rejection → Type 0
  Means issuers now header (ok subject) =
      (token : Text) × (cfg : IssuerConfig) × (claims : Claims) × (header
        ≡ some (codes "Bearer " ++ token))
      × IsVerified tokens issuers now token cfg claims
      × Allows cfg claims
      × (subject ≡ claims.iss ++ codes "#" ++ claims.sub)
  Means issuers now header (err refused) =
      (token : Text) × (cfg : IssuerConfig) × (claims : Claims) × (header
        ≡ some (codes "Bearer " ++ token))
      × IsVerified tokens issuers now token cfg claims
      × (¬ Allows cfg claims)
  Means issuers now header (err missing) = bind header (strip_prefix (codes "Bearer ")) ≡ none
  Means issuers now header (err invalid) = Unit

  rejected-Means :
      (issuers : List (Issuer K)) (now : ℕ) (header : Option Text) (token : Text)
      (r : Result Text Denial)
      → header ≡ some (codes "Bearer " ++ token)
      → Judges issuers now token r
      → Means issuers now header (rejected tokens r)
  rejected-Means issuers now header token (ok subject) h (cfg, claims, v, allowed, s) =
      (token, cfg, claims, h, v, allowed, s)
  rejected-Means issuers now header token (err malformed) h j = tt
  rejected-Means issuers now header token (err untrusted_issuer) h j = tt
  rejected-Means issuers now header token (err unknown_key) h j = tt
  rejected-Means issuers now header token (err jwks_unavailable) h j = tt
  rejected-Means issuers now header token (err invalid_token) h j = tt
  rejected-Means issuers now header token (err (unauthorized gate)) h
        (cfg, claims, v, not_allowed) =
      (token, cfg, claims, h, v, not_allowed)

  bearer_of-Means :
      (issuers : List (Issuer K)) (now : ℕ) (header token : Option Text)
      → bind header (strip_prefix (codes "Bearer ")) ≡ token
      → Means issuers now header (bearer_of tokens issuers now token)
  unfolding check
  bearer_of-Means issuers now header none e = e
  bearer_of-Means issuers now header (some token) e =
      let (value, there, stripped) = bind-eq-some header (strip_prefix (codes "Bearer ")) e in
      rejected-Means issuers now header token (check tokens issuers now token).1
        (there ∙ ap some (strip_prefix_sound (codes "Bearer ") value stripped))
        (check-Judges issuers now token (tokens.unverified_issuer token) refl)

  -- `bearer` lets a request in as a subject only for a token of its header that an issuer of the
  -- configuration vouches for, verified for that issuer with a key that its set had, and that the
  -- issuer's policy allows; the subject is the one that the token names. It refuses for good, with 403,
  -- only a token that was verified in the same way and that the policy does not allow.
  pub bearer-Means :
      (issuers : List (Issuer K)) (now : ℕ) (header : Option Text)
      → Means issuers now header (bearer tokens issuers now header)
  unfolding bearer
  bearer-Means issuers now header = bearer_of-Means issuers now header _ refl
