-- ===== src/Auth.antt =====
-- crates/garret-server/src/auth.rs: what a token whose signature, issuer, audience and times have been
-- checked may do, by the issuer's policy. A refusal carries the gate that failed; its text is left out.
pub mod Allowed
pub mod Authorized
pub mod Keys
pub mod Bearer
mod Tests
use garret.Common.{
  Bool, true, false, not, ◌&&◌, Option, none, some, List, [], ◌∷◌, if◌then◌else◌, Text, text_eq,
  any, mem, is_some, bind, codes,
}
use garret.Common.Result.{Result, ok, err, ◌>>◌}
use garret.StorePath.Split.{strip_prefix, strip_suffix}

pub data Gate : Type 0 where
  owner ref_name protection repository event workflow group_name : Gate

-- `IssuerConfig`, but for what a client is told and where the keys are.
pub record IssuerConfig : Type 0 where
  pub issuer : Text
  pub audience : Text
  pub extra_audiences : List Text
  pub github_owner_id : Option Text
  pub ref_patterns : List Text
  pub ref_protected : Option Bool
  pub repository_ids : List Text
  pub event_names : List Text
  pub job_workflow_refs : List Text
  pub allowed_groups : List Text

pub record Claims : Type 0 where
  pub iss : Text
  pub sub : Text
  pub groups : List Text
  pub ref_protected : Option Text
  pub repository_owner_id : Option Text
  pub git_ref : Option Text
  pub repository_id : Option Text
  pub event_name : Option Text
  pub job_workflow_ref : Option Text
  pub repository : Option Text

abbrev pub Permission : Type 0
Permission = Result (Unit {0}) Gate

abbrev pub unless : Gate → Bool → Permission
unless gate true = ok tt
unless gate false = err gate

abbrev pub matched_by : Option Text → Text → Text → Bool
matched_by none pattern git_ref = text_eq pattern git_ref
matched_by (some prefix) pattern git_ref = is_some (strip_prefix prefix git_ref)

unfoldable pub ref_matches : Text → Text → Bool
ref_matches pattern git_ref = matched_by (strip_suffix (codes "*") pattern) pattern git_ref

abbrev pub allowlisted : List Text → Option Text → Gate → (Text → Text → Bool) → Permission
allowlisted [] claim gate matches = ok tt
allowlisted (a ∷ allowed) none gate matches = err gate
allowlisted (a ∷ allowed) (some value) gate matches =
    unless gate (any (λ x. matches x value) (a ∷ allowed))

abbrev pub owner_gate : Option Text → Option Text → Permission
owner_gate none claim = ok tt
owner_gate (some expected) none = err owner
owner_gate (some expected) (some actual) = unless owner (text_eq actual expected)

abbrev pub as_claim : Bool → Text
as_claim true = codes "true"
as_claim false = codes "false"

abbrev pub protected_as : Option Bool → Option Text → Permission
protected_as none claim = ok tt
protected_as (some expected) none = err protection
protected_as (some expected) (some actual) = unless protection (text_eq actual (as_claim expected))

-- The workflow file is of the token's own repository.
abbrev pub own_workflow : List Text → Option Text → Option Text → Permission
own_workflow [] file name = ok tt
own_workflow (a ∷ allowed) none name = ok tt
own_workflow (a ∷ allowed) (some file) none = err workflow
own_workflow (a ∷ allowed) (some file) (some name) =
    unless workflow (is_some (bind (strip_prefix name file) (strip_prefix (codes "/"))))

abbrev pub grouped : List Text → List Text → Permission
grouped [] groups = ok tt
grouped (a ∷ allowed) groups = unless group_name (any (λ g. mem g (a ∷ allowed)) groups)

unfoldable pub authorize : IssuerConfig → Claims → Permission
authorize cfg claims =
    owner_gate cfg.github_owner_id claims.repository_owner_id
    >> (allowlisted cfg.ref_patterns claims.git_ref ref_name ref_matches
        >> (protected_as cfg.ref_protected claims.ref_protected
            >> (allowlisted cfg.repository_ids claims.repository_id repository text_eq
                >> (allowlisted cfg.event_names claims.event_name event text_eq
                    >> (allowlisted cfg.job_workflow_refs claims.job_workflow_ref workflow
                          ref_matches
                        >> (own_workflow cfg.job_workflow_refs claims.job_workflow_ref
                              claims.repository
                            >> grouped cfg.allowed_groups claims.groups))))))
