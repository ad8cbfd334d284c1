-- ===== src/Auth/Tests.antt =====
-- crates/garret-server/src/auth.rs: `authorize`, the key cache and `bearer`, run on examples.
use garret.Common.{none, List, Text, arith, ◌≡◌, ◌↔◌, refl, true, some, [], ◌∷◌, codes, text_eq}
use garret.Common.Result.{ok, err}
use garret.StorePath.Split.{strip_prefix, strip_suffix}
use garret.Auth.{IssuerConfig, Claims, ref_matches, authorize, owner, workflow}
use garret.Auth.Authorized.{authorize_iff}
use garret.Auth.Allowed.{Allows}
use garret.Auth.Keys.{no_keys, cached_key, refresh, fetch_ends}
use garret.Auth.Keys.Floor.{
  Event, asked, fetch_ended, begun, finished, marks, IsFloored, no_keys-IsFloored,
}
use garret.Auth.Bearer.{Tokens, Issuer, refused, verify_token, check, bearer}
use garret.Auth.Bearer.Subjects.{Means, bearer-Means}

abbrev github : IssuerConfig
github = record {
  issuer = codes "https://gh";
  audience = codes "cache";
  extra_audiences = [];
  github_owner_id = some (codes "7");
  ref_patterns = codes "refs/heads/main" ∷ codes "refs/tags/*" ∷ [];
  ref_protected = some true;
  repository_ids = [];
  event_names = codes "push" ∷ [];
  job_workflow_refs = codes "me/cache/*" ∷ [];
  allowed_groups = [];
}

abbrev tag_claims : Claims
tag_claims = record {
  iss = codes "https://gh";
  sub = codes "me";
  groups = [];
  ref_protected = some (codes "true");
  repository_owner_id = some (codes "7");
  git_ref = some (codes "refs/tags/v1");
  repository_id = some (codes "1");
  event_name = some (codes "push");
  job_workflow_ref = some (codes "me/cache/ci.yml");
  repository = some (codes "me/cache");
}

released : authorize github tag_claims ≡ ok tt
unfolding authorize ref_matches strip_prefix strip_suffix text_eq
released = refl

stranger :
    authorize github (record tag_claims { repository_owner_id = some (codes "8") }) ≡ err owner
unfolding authorize ref_matches strip_prefix strip_suffix text_eq
stranger = refl

called_from_elsewhere :
    authorize github (record tag_claims { repository = some (codes "me/other") }) ≡ err workflow
unfolding authorize ref_matches strip_prefix strip_suffix text_eq
called_from_elsewhere = refl

authorize_iff_example : (authorize github tag_claims ≡ ok tt) ↔ Allows github tag_claims
authorize_iff_example = authorize_iff github tag_claims

-- A flood of callers, a fetch that fails and one that brings keys.
abbrev flood : List (Event Text)
flood =
    asked 1
    ∷ asked 2
    ∷ fetch_ended 3 none
    ∷ asked 4
    ∷ asked 12
    ∷ asked 13
    ∷ asked 14
    ∷ fetch_ended 15 (some ((codes "a", codes "key") ∷ []))
    ∷ asked 16
    ∷ []

two_fetches : marks (no_keys {K = Text}) flood ≡ begun 1 ∷ finished 3 ∷ begun 13 ∷ finished 15 ∷ []
unfolding refresh fetch_ends
two_fetches = refl

no_keys-IsFloored_example : IsFloored (some 1) (marks (no_keys {K = Text}) flood)
no_keys-IsFloored_example = no_keys-IsFloored flood 1 (ground arith)

-- Every token is one of `tag_claims`, by the key `a`.
abbrev tokens : Tokens Text
tokens = record {
  unverified_issuer = λ token. some (codes "https://gh");
  kid_of = λ token. some (codes "a");
  decode = λ validation key token. some tag_claims;
  waited = λ keys. (true, record keys { by_kid = (codes "a", codes "key") ∷ [] });
}

abbrev issuers : List (Issuer Text)
issuers = record { cfg = github; keys = no_keys } ∷ []

bearer-Means_example :
    Means tokens issuers 5 (some (codes "Bearer token")) (ok (codes "https://gh#me"))
unfolding bearer check verify_token cached_key refresh authorize ref_matches strip_prefix
    strip_suffix text_eq
bearer-Means_example = bearer-Means tokens issuers 5 (some (codes "Bearer token"))

forbidden :
    bearer tokens
      (record { cfg = record github { event_names = codes "tag_claims" ∷ [] }; keys = no_keys }
        ∷ [])
      5
      (some (codes "Bearer token"))
    ≡ err refused
unfolding bearer check verify_token cached_key refresh authorize ref_matches strip_prefix
    strip_suffix text_eq
forbidden = refl
