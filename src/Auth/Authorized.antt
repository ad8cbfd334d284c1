-- ===== src/Auth/Authorized.antt =====
-- crates/garret-server/src/auth.rs: `authorize` against the policy that a configuration states.
use garret.Common.{
  some-injective, ◌≡◌, ◌↔◌, refl, sym, ap, ◌∙◌, Bool, true, Option, none, some, List, [], ◌∷◌, ◌++◌,
  Text, text_eq, text_eq_iff, any, mem, is_some, bind, codes, inl, inr, Option-cases,
}
use garret.Common.Result.{ok}
use garret.StorePath.Split.{strip_prefix, strip_prefix-append, strip_prefix_sound}
use garret.Auth.{
  IssuerConfig, Claims, ref_matches, ref_name, repository, event, owner_gate, owner, as_claim,
  protected_as, own_workflow, grouped, authorize, workflow, group_name, protection,
}
use garret.Auth.Allowed.{
  AnyOf, Matches, Asked, Own, InGroup, asked_protection, Allows, any_iff, unless_iff, then_iff,
  starts_iff, ref_matches_iff, allowlisted_iff, equal_iff,
}

owner_gate_iff : (asked claim : Option Text) → (owner_gate asked claim ≡ ok tt) ↔ Asked asked claim
owner_gate_iff none claim = (λ e. tt, λ w. refl)
owner_gate_iff (some expected) none = (λ e. cc, λ w. cc)
owner_gate_iff (some expected) (some actual) =
    let test = unless_iff owner (text_eq actual expected) in
    (
      λ e. ap some ((text_eq_iff actual expected).0 (test.0 e)),
      λ w. test.1 ((text_eq_iff actual expected).1 (some-injective w)),
    )

protected_iff :
    (asked : Option Bool) (claim : Option Text)
    → (protected_as asked claim ≡ ok tt) ↔ Asked (asked_protection asked) claim
protected_iff none claim = (λ e. tt, λ w. refl)
protected_iff (some expected) none = (λ e. cc, λ w. cc)
protected_iff (some expected) (some actual) =
    let test = unless_iff protection (text_eq actual (as_claim expected)) in
    (
      λ e. ap some ((text_eq_iff actual (as_claim expected)).0 (test.0 e)),
      λ w. test.1 ((text_eq_iff actual (as_claim expected)).1 (some-injective w)),
    )

grouped_iff :
    (allowed groups : List Text) → (grouped allowed groups ≡ ok tt) ↔ InGroup allowed groups
grouped_iff [] groups = (λ e. tt, λ w. refl)
grouped_iff (a ∷ allowed) groups =
    let in_one =
      any_iff (λ g. mem g (a ∷ allowed)) (λ g. AnyOf (λ x. g ≡ x) (a ∷ allowed)) groups
        (λ g. any_iff (text_eq g) (λ x. g ≡ x) (a ∷ allowed) (λ x. text_eq_iff g x)) in
    let test = unless_iff group_name (any (λ g. mem g (a ∷ allowed)) groups) in
    (λ e. in_one.0 (test.0 e), λ w. test.1 (in_one.1 w))

below_iff :
    (name file : Text)
    → (is_some (bind (strip_prefix name file) (strip_prefix (codes "/"))) ≡ true)
      ↔ ((rest : Text) × (file ≡ name ++ (codes "/" ++ rest)))
below_iff name file = (
  λ e. elim (Option-cases (strip_prefix name file)) [
    | inl n ↦ cc (rw n at e)
    | inr (path, p) ↦
        let (rest, r) = (starts_iff (codes "/") path).0 (rw p at e) in
        (rest, strip_prefix_sound name file p ∙ ap (λ t. name ++ t) r)
  ],
  λ (rest, f).
      ap (λ r. is_some (bind r (strip_prefix (codes "/"))))
        (ap (strip_prefix name) f ∙ strip_prefix-append name (codes "/" ++ rest))
      ∙ ap is_some (strip_prefix-append (codes "/") rest),
)

own_workflow_iff :
    (allowed : List Text) (file name : Option Text)
    → (own_workflow allowed file name ≡ ok tt) ↔ Own allowed file name
own_workflow_iff [] file name = (λ e. tt, λ w. refl)
own_workflow_iff (a ∷ allowed) none name = (λ e. tt, λ w. refl)
own_workflow_iff (a ∷ allowed) (some file) none = (λ e. cc, λ (n, rest, c, f). cc)
own_workflow_iff (a ∷ allowed) (some file) (some name) =
    let test =
      unless_iff workflow (is_some (bind (strip_prefix name file) (strip_prefix (codes "/")))) in
    let below = below_iff name file in
    (
      λ e. let (rest, f) = below.0 (test.0 e) in (name, rest, refl, f),
      λ (n, rest, c, f).
          test.1 (below.1 (rest, f ∙ ap (λ m. m ++ (codes "/" ++ rest)) (sym (some-injective c)))),
    )

-- `authorize` lets a token through exactly when it has what the configuration asks: the owner, a ref
-- that a pattern allows, the protection, a repository, an event and a workflow file of the lists that
-- are not empty, the file being one of the token's own repository, and an allowed group.
pub authorize_iff :
    (cfg : IssuerConfig) (claims : Claims) → (authorize cfg claims ≡ ok tt) ↔ Allows cfg claims
unfolding authorize
authorize_iff cfg claims =
    let all = then_iff _ _ (owner_gate_iff cfg.github_owner_id claims.repository_owner_id) (
      then_iff _ _
        (allowlisted_iff cfg.ref_patterns claims.git_ref ref_name ref_matches Matches
          ref_matches_iff)
        (then_iff _ _ (protected_iff cfg.ref_protected claims.ref_protected) (
          then_iff _ _
            (allowlisted_iff cfg.repository_ids claims.repository_id repository text_eq
              (λ a v. a ≡ v) equal_iff)
            (then_iff _ _
              (allowlisted_iff cfg.event_names claims.event_name event text_eq (λ a v. a ≡ v)
                equal_iff)
              (then_iff _ _
                (allowlisted_iff cfg.job_workflow_refs claims.job_workflow_ref workflow ref_matches
                  Matches ref_matches_iff)
                (then_iff _ _
                  (own_workflow_iff cfg.job_workflow_refs claims.job_workflow_ref claims.repository)
                  (grouped_iff cfg.allowed_groups claims.groups))))))) in
    (
      λ e. let (a, (b, (c, (d, (f, (g, (h, i))))))) = all.0 e in (a, b, c, d, f, g, h, i),
      λ (a, b, c, d, f, g, h, i). all.1 (a, (b, (c, (d, (f, (g, (h, i))))))),
    )
