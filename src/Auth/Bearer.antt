-- ===== src/Auth/Bearer.antt =====
-- crates/garret-server/src/auth.rs: the authentication of a request by its bearer token. Reading a token
-- without trust (base64 and serde) and its verification (jsonwebtoken) are parameters, and so is what
-- happens to an issuer's keys while a caller waits for a fetch.
pub mod Issued
pub mod Subjects
use garret.Common.{
  ℕ, Bool, true, false, Option, none, some, List, [], ◌∷◌, ◌++◌, if◌then◌else◌, Text, text_eq, bind,
  codes,
}
use garret.Common.Result.{Result, ok, err}
use garret.StorePath.Split.{strip_prefix}
use garret.Auth.{Gate, IssuerConfig, Claims, Permission, authorize}
use garret.Auth.Keys.{KeySet, Attempt, cached_key, refresh}

-- What jsonwebtoken is told to check.
pub record Validation : Type 0 where
  pub trusted_issuer : Text
  pub audiences : List Text
  pub leeway : ℕ
  pub required : List Text
  pub not_before : Bool

abbrev pub leeway_secs : ℕ
leeway_secs = 60

abbrev pub validation_for : IssuerConfig → Validation
validation_for cfg = record {
  trusted_issuer = cfg.issuer;
  audiences = cfg.audience ∷ cfg.extra_audiences;
  leeway = leeway_secs;
  required = codes "exp" ∷ codes "aud" ∷ codes "iss" ∷ [];
  not_before = true;
}

pub record Tokens (K : Type 0) : Type 0 where
  pub unverified_issuer : Text → Option Text
  pub kid_of : Text → Option Text
  pub decode : Validation → K → Text → Option Claims
  pub waited : KeySet K → Bool × KeySet K

pub record Issuer (K : Type 0) : Type 0 where
  pub cfg : IssuerConfig
  pub keys : KeySet K

pub data Denial : Type 0 where
  malformed untrusted_issuer unknown_key jwks_unavailable invalid_token : Denial
  unauthorized : Gate → Denial

-- Why there is no key.
pub data NoKey : Type 0 where
  not_in_set not_fetched : NoKey

abbrev pub denial_of : NoKey → Denial
denial_of not_in_set = unknown_key
denial_of not_fetched = jwks_unavailable

pub data Rejection : Type 0 where
  missing invalid refused : Rejection

module _ {K : Type 0} (tokens : Tokens K) where
  open tokens use {unverified_issuer, kid_of, decode, waited}

  abbrev pub found_key : Option K → Result K NoKey
  found_key none = err not_in_set
  found_key (some key) = ok key

  -- The key after the wait for a fetch, or at once while the floor holds.
  abbrev pub awaited_key : Text → ℕ → Option Attempt × KeySet K → Result K NoKey × KeySet K
  awaited_key kid now (none, keys) = (found_key (cached_key kid now keys).0, keys)
  awaited_key kid now (some attempt, keys) =
      let (fetched, after) = waited keys in
      if fetched then (found_key (cached_key kid now after).0, after) else (err not_fetched, after)

  -- An expired set still serves while it is fetched again.
  abbrev pub key_for_kid : Text → ℕ → KeySet K → Option K × Bool → Result K NoKey × KeySet K
  key_for_kid kid now keys (none, expired) = awaited_key kid now (refresh now keys)
  key_for_kid kid now keys (some key, true) = (ok key, (refresh now keys).1)
  key_for_kid kid now keys (some key, false) = (ok key, keys)

  abbrev pub subject_of : Claims → Permission → Result Text Denial
  subject_of claims (err gate) = err (unauthorized gate)
  subject_of claims (ok done) = ok (claims.iss ++ codes "#" ++ claims.sub)

  abbrev pub authorized : IssuerConfig → Option Claims → Result Text Denial
  authorized cfg none = err invalid_token
  authorized cfg (some claims) = subject_of claims (authorize cfg claims)

  abbrev pub with_key : IssuerConfig → Text → Result K NoKey → Result Text Denial
  with_key cfg token (err none_of_it) = err (denial_of none_of_it)
  with_key cfg token (ok key) = authorized cfg (decode (validation_for cfg) key token)

  abbrev pub verify_kid : Issuer K → ℕ → Text → Option Text → Result Text Denial × KeySet K
  verify_kid issuer now token none = (err malformed, issuer.keys)
  verify_kid issuer now token (some kid) =
      let (key, keys) = key_for_kid kid now issuer.keys (cached_key kid now issuer.keys) in
      (with_key issuer.cfg token key, keys)

  unfoldable pub verify_token : Issuer K → ℕ → Text → Result Text Denial × KeySet K
  verify_token issuer now token = verify_kid issuer now token (kid_of token)

  abbrev pub issuer_named : Text → List (Issuer K) → Option (Issuer K)
  issuer_named name [] = none
  issuer_named name (i ∷ issuers) =
      if text_eq i.cfg.issuer name then some i else issuer_named name issuers

  abbrev pub trusted : Option (Issuer K) → Result (Issuer K) Denial
  trusted none = err untrusted_issuer
  trusted (some issuer) = ok issuer

  abbrev pub route_by : List (Issuer K) → Option Text → Result (Issuer K) Denial
  route_by issuers none = err malformed
  route_by issuers (some name) = trusted (issuer_named name issuers)

  -- The label of the metric with the verdict.
  abbrev pub check_routed : ℕ → Text → Result (Issuer K) Denial → Text × Result Text Denial
  check_routed now token (err denial) = (codes "unknown", err denial)
  check_routed now token (ok issuer) = (issuer.cfg.issuer, (verify_token issuer now token).0)

  unfoldable pub check : List (Issuer K) → ℕ → Text → Text × Result Text Denial
  check issuers now token = check_routed now token (route_by issuers (unverified_issuer token))

  abbrev pub rejection_of : Denial → Rejection
  rejection_of malformed = invalid
  rejection_of untrusted_issuer = invalid
  rejection_of unknown_key = invalid
  rejection_of jwks_unavailable = invalid
  rejection_of invalid_token = invalid
  rejection_of (unauthorized gate) = refused

  abbrev pub rejected : Result Text Denial → Result Text Rejection
  rejected (ok subject) = ok subject
  rejected (err denial) = err (rejection_of denial)

  abbrev pub bearer_of : List (Issuer K) → ℕ → Option Text → Result Text Rejection
  bearer_of issuers now none = err missing
  bearer_of issuers now (some token) = rejected (check issuers now token).1

  -- Of the value of the `Authorization` header, where there is one that is text.
  unfoldable pub bearer : List (Issuer K) → ℕ → Option Text → Result Text Rejection
  bearer issuers now header = bearer_of issuers now (bind header (strip_prefix (codes "Bearer ")))

-- `respond`, its status.
abbrev pub respond : Rejection → ℕ
respond refused = 403
respond missing = 401
respond invalid = 401
