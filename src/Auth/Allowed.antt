-- ===== src/Auth/Allowed.antt =====
-- crates/garret-server/src/auth.rs: what the policy of an issuer allows, and the tests on one claim.
use garret.Common.{
  some-injective, ◌≡◌, ◌⊎◌, ◌↔◌, refl, sym, ap, subst, ◌∙◌, Bool, true, false, Option, none, some,
  List, [], ◌∷◌, ◌++◌, Text, text_eq, text_eq_iff, any, is_some, codes, inl, inr, Bool-cases,
  Option-cases,
}
use garret.Common.Result.{ok, err, ◌>>◌}
use garret.StorePath.Split.{
  strip_prefix, strip_suffix, strip_prefix-append, strip_prefix_sound, strip_suffix-append,
  strip_suffix_sound,
}
use garret.Auth.{
  Gate, IssuerConfig, Claims, Permission, unless, ref_matches, matched_by, allowlisted, as_claim,
}

-- Some text of a list.
abbrev pub AnyOf : (Text → Type 0) → List Text → Type 0
AnyOf P [] = ⊥
AnyOf P (x ∷ xs) = P x ⊎ AnyOf P xs

-- A pattern is a text, or a prefix before a star.
abbrev pub Matches : Text → Text → Type 0
Matches pattern text =
    (pattern ≡ text)
    ⊎ ((prefix : Text) × (rest : Text) × (pattern ≡ prefix ++ codes "*") × (text ≡ prefix ++ rest))

-- A list that is not empty allows a claim that is there and matches one of it.
abbrev pub Listed : (Text → Text → Type 0) → List Text → Option Text → Type 0
Listed M [] claim = Unit
Listed M (a ∷ allowed) claim =
    (value : Text) × (claim ≡ some value) × AnyOf (λ x. M x value) (a ∷ allowed)

abbrev pub Asked : Option Text → Option Text → Type 0
Asked none claim = Unit
Asked (some expected) claim = claim ≡ some expected

abbrev pub Own : List Text → Option Text → Option Text → Type 0
Own [] file owned_by = Unit
Own (a ∷ allowed) none owned_by = Unit
Own (a ∷ allowed) (some file) owned_by =
    (name : Text) × (rest : Text) × (owned_by ≡ some name) × (file ≡ name ++ (codes "/" ++ rest))

abbrev pub InGroup : List Text → List Text → Type 0
InGroup [] groups = Unit
InGroup (a ∷ allowed) groups = AnyOf (λ g. AnyOf (λ x. g ≡ x) (a ∷ allowed)) groups

abbrev pub asked_protection : Option Bool → Option Text
asked_protection none = none
asked_protection (some b) = some (as_claim b)

-- What a configuration asks of a token.
abbrev pub Allows : IssuerConfig → Claims → Type 0
Allows cfg claims =
    Asked cfg.github_owner_id claims.repository_owner_id
    × Listed Matches cfg.ref_patterns claims.git_ref
    × Asked (asked_protection cfg.ref_protected) claims.ref_protected
    × Listed (λ a v. a ≡ v) cfg.repository_ids claims.repository_id
    × Listed (λ a v. a ≡ v) cfg.event_names claims.event_name
    × Listed Matches cfg.job_workflow_refs claims.job_workflow_ref
    × Own cfg.job_workflow_refs claims.job_workflow_ref claims.repository
    × InGroup cfg.allowed_groups claims.groups

pub any_iff :
    (p : Text → Bool) (P : Text → Type 0) (xs : List Text)
    → ((x : Text) → (p x ≡ true) ↔ P x)
    → (any p xs ≡ true) ↔ AnyOf P xs
any_iff p P [] each = (λ e. cc, λ n. absurd n)
any_iff p P (x ∷ xs) each = (
  λ e. elim (Bool-cases (p x)) [
    | inl t ↦ inl ((each x).0 t)
    | inr f ↦ inr ((any_iff p P xs each).0 (rw f at e))
  ],
  λ w. elim w [
    | inl v ↦ rw ((each x).1 v) refl
    | inr v ↦ elim (Bool-cases (p x)) [
      | inl t ↦ rw t refl
      | inr f ↦ rw f ((any_iff p P xs each).1 v)
    ]
  ],
)

pub unless_iff : (gate : Gate) (b : Bool) → (unless gate b ≡ ok tt) ↔ (b ≡ true)
unless_iff gate true = (λ e. refl, λ e. refl)
unless_iff gate false = (λ e. cc, λ e. cc)

pub then_iff :
    (first second : Permission) {A B : Type 0}
    → (first ≡ ok tt) ↔ A
    → (second ≡ ok tt) ↔ B
    → ((first >> second) ≡ ok tt) ↔ (A × B)
then_iff (ok done) second a b = (λ e. (a.0 refl, b.0 e), λ w. b.1 w.1)
then_iff (err gate) second a b = (λ e. cc, λ w. cc (a.1 w.0))

pub starts_iff :
    (p t : Text) → (is_some (strip_prefix p t) ≡ true) ↔ ((rest : Text) × (t ≡ p ++ rest))
starts_iff p t = (
  λ e. elim (Option-cases (strip_prefix p t)) [
    | inl n ↦ cc (rw n at e)
    | inr (rest, r) ↦ (rest, strip_prefix_sound p t r)
  ],
  λ (rest, e). ap is_some (ap (strip_prefix p) e ∙ strip_prefix-append p rest),
)

matched_iff :
    (pattern text : Text) (r : Option Text)
    → strip_suffix (codes "*") pattern ≡ r
    → (matched_by r pattern text ≡ true) ↔ Matches pattern text
matched_iff pattern text none e = (
  λ t. inl ((text_eq_iff pattern text).0 t),
  λ m. elim m [
    | inl same ↦ (text_eq_iff pattern text).1 same
    | inr (prefix, rest, p, t) ↦
        cc (ap (strip_suffix (codes "*")) p ∙ strip_suffix-append prefix (codes "*"), e)
  ],
)
matched_iff pattern text (some prefix) e =
    let whole : pattern ≡ prefix ++ codes "*" = strip_suffix_sound (codes "*") pattern e in
    (
      λ t. let (rest, r) = (starts_iff prefix text).0 t in inr (prefix, rest, whole, r),
      λ m. elim m [
        | inl same ↦ (starts_iff prefix text).1 (codes "*", sym same ∙ whole)
        | inr (prefix', rest, p, t) ↦
            let one : prefix' ≡ prefix = some-injective (
              sym (ap (strip_suffix (codes "*")) p ∙ strip_suffix-append prefix' (codes "*"))
              ∙ e) in
            (starts_iff prefix text).1 (rest, t ∙ ap (λ q. q ++ rest) one)
      ],
    )

pub ref_matches_iff :
    (pattern text : Text) → (ref_matches pattern text ≡ true) ↔ Matches pattern text
unfolding ref_matches
ref_matches_iff pattern text = matched_iff pattern text (strip_suffix (codes "*") pattern) refl

pub allowlisted_iff :
    (allowed : List Text) (claim : Option Text) (gate : Gate) (matches : Text → Text → Bool)
    (M : Text → Text → Type 0)
    → ((x v : Text) → (matches x v ≡ true) ↔ M x v)
    → (allowlisted allowed claim gate matches ≡ ok tt) ↔ Listed M allowed claim
allowlisted_iff [] claim gate matches M each = (λ e. tt, λ w. refl)
allowlisted_iff (a ∷ allowed) none gate matches M each = (λ e. cc, λ (v, c, w). cc)
allowlisted_iff (a ∷ allowed) (some value) gate matches M each =
    let some_of =
      any_iff (λ x. matches x value) (λ x. M x value) (a ∷ allowed) (λ x. each x value) in
    let test = unless_iff gate (any (λ x. matches x value) (a ∷ allowed)) in
    (
      λ e. (value, refl, some_of.0 (test.0 e)),
      λ (v, c, w).
          test.1
            (some_of.1 (subst (λ u. AnyOf (λ x. M x u) (a ∷ allowed)) (sym (some-injective c)) w)),
    )

pub equal_iff : (a b : Text) → (text_eq a b ≡ true) ↔ (a ≡ b)
equal_iff a b = text_eq_iff a b
