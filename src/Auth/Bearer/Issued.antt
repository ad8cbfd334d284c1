-- ===== src/Auth/Bearer/Issued.antt =====
-- crates/garret-server/src/auth.rs: the keys that a token is verified by, and its issuer.
use garret.Common.{
  ℕ, ◌≡◌, refl, sym, ap, ◌∙◌, Bool, true, false, Bool-cases, Option, none, some, List, [], ◌∷◌,
  if◌then◌else◌, Text, text_eq, text_eq_iff, inl, inr, some-injective, ◌⊎◌,
}
use garret.Common.Result.{ok, ok-injective}
use garret.Auth.{IssuerConfig, Claims}
use garret.Auth.Keys.{
  KeySet, Attempt, cached_key, refresh, key_of, is_past, joined_fetch, started_fetch,
}
use garret.Auth.Bearer.{
  validation_for, Tokens, Issuer, found_key, awaited_key, key_for_kid, issuer_named,
}

-- One of a list.
abbrev pub IsIn : {A : Type 0} → A → List A → Type 0
IsIn a [] = ⊥
IsIn a (x ∷ xs) = (x ≡ a) ⊎ IsIn a xs

module _ {K : Type 0} (tokens : Tokens K) where
  -- A key that the issuer's set had for the token's `kid`, when it was read or after the wait for a
  -- fetch.
  abbrev pub IsKey : Issuer K → ℕ → Text → K → Type 0
  IsKey issuer now kid key =
      (key_of kid issuer.keys.by_kid ≡ some key)
      ⊎ (key_of kid (tokens.waited (refresh now issuer.keys).1).1.by_kid ≡ some key)

  -- A token that an issuer of the list has vouched for, and what it claims.
  pub record IsVerified (issuers : List (Issuer K)) (now : ℕ) (token : Text) (cfg : IssuerConfig)
      (claims : Claims) : Type 0 where
    pub issuer : Issuer K
    pub trusted : IsIn issuer issuers
    pub config : issuer.cfg ≡ cfg
    pub named : tokens.unverified_issuer token ≡ some cfg.issuer
    pub kid : Text
    pub has_kid : tokens.kid_of token ≡ some kid
    pub key : K
    pub of_issuer : IsKey issuer now kid key
    pub decodes : tokens.decode (validation_for cfg) key token ≡ some claims

  found_key-some : (k : Option K) {key : K} → found_key tokens k ≡ ok key → k ≡ some key
  found_key-some none e = cc
  found_key-some (some k) e = ap some (ok-injective e)

  abbrev refreshed : KeySet K → Bool → Bool → Option Attempt × KeySet K
  refreshed keys busy past =
      if busy
      then (some joined_fetch, keys)
      else if past
      then (some started_fetch, record keys { in_flight = true })
      else (none, keys)

  refreshed-by_kid :
      (keys : KeySet K) (busy past : Bool) → (refreshed keys busy past).1.by_kid ≡ keys.by_kid
  refreshed-by_kid keys true past = refl
  refreshed-by_kid keys false true = refl
  refreshed-by_kid keys false false = refl

  refresh-by_kid : (now : ℕ) (keys : KeySet K) → (refresh now keys).1.by_kid ≡ keys.by_kid
  unfolding refresh
  refresh-by_kid now keys = refreshed-by_kid keys keys.in_flight (is_past now keys.next_attempt)

  awaited_key-IsKey :
      (issuer : Issuer K) (kid : Text) (now : ℕ) (r : Option Attempt × KeySet K) {key : K}
      → refresh now issuer.keys ≡ r
      → (awaited_key tokens kid now r).0 ≡ ok key
      → IsKey issuer now kid key
  unfolding cached_key
  awaited_key-IsKey issuer kid now (none, keys) same e = inl (
      ap (key_of kid) (
        sym (refresh-by_kid now issuer.keys)
        ∙ ap (λ (r : Option Attempt × KeySet K). r.1.by_kid) same)
      ∙ found_key-some (key_of kid keys.by_kid) e)
  awaited_key-IsKey issuer kid now (some attempt, keys) same e =
      elim (Bool-cases (tokens.waited keys).0) [
        | inl fetched ↦ inr (
            ap (λ (r : Option Attempt × KeySet K). key_of kid (tokens.waited r.1).1.by_kid) same
            ∙ found_key-some (key_of kid (tokens.waited keys).1.by_kid) (rw fetched at e))
        | inr failed ↦ cc (rw failed at e)
      ]

  pub key_for_kid-IsKey :
      (issuer : Issuer K) (kid : Text) (now : ℕ) (cached : Option K) (expired : Bool) {key : K}
      → key_of kid issuer.keys.by_kid ≡ cached
      → (key_for_kid tokens kid now issuer.keys (cached, expired)).0 ≡ ok key
      → IsKey issuer now kid key
  key_for_kid-IsKey issuer kid now none expired c e =
      awaited_key-IsKey issuer kid now (refresh now issuer.keys) refl e
  key_for_kid-IsKey issuer kid now (some k) true c e = inl (c ∙ ap some (ok-injective e))
  key_for_kid-IsKey issuer kid now (some k) false c e = inl (c ∙ ap some (ok-injective e))

  pub issuer_named-IsIn :
      (name : Text) (issuers : List (Issuer K)) {found : Issuer K}
      → issuer_named tokens name issuers ≡ some found
      → IsIn found issuers × (found.cfg.issuer ≡ name)
  issuer_named-IsIn name [] e = cc
  issuer_named-IsIn name (i ∷ issuers) {found} e = elim (Bool-cases (text_eq i.cfg.issuer name)) [
    | inl t ↦
        let same : i ≡ found = some-injective (rw t at e) in
        (
          inl same,
          ap (λ (x : Issuer K). x.cfg.issuer) (sym same) ∙ (text_eq_iff i.cfg.issuer name).0 t,
        )
    | inr f ↦
        let (there, named) = issuer_named-IsIn name issuers {found = found} (rw f at e) in
        (inr there, named)
  ]
