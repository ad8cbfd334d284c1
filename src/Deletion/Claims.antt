-- ===== src/Deletion/Claims.antt =====
-- crates/garret-pusher/src/deletion.rs: which paths a deletion holds.
use garret.Common.{
  ap, subst, mem, mem_same, Distinct, text_eq_refl, ◌≡◌, refl, Bool, true, false, ◌||◌, ◌&&◌,
  is_some, none, some, List, [], ◌∷◌, ◌++◌, arith, if◌then◌else◌, Text, text_eq, text_eq→≡,
  text_eq_sym, any, inl, inr, Option-cases,
}
use garret.Common.Result.{Result, ok, err, err-injective}
use garret.InFlight.{State, Claim, drop_claim, busy_with}
use garret.InFlight.Claims.{Kind, delete, lookup, lookup-remove_self, lookup-remove_ne}
use garret.InFlight.Counted.{claim_delete_lem}
use garret.Deletion.{Deletion, drop_all, claim_each, claim_all, begun, BusyPath}

abbrev pub claimed : List Claim → Text → Bool
claimed claims h = any (λ c. text_eq c.hash h) claims

-- Dropping claims releases their paths and no others.
pub lookup-drop_all :
    (s : State) (claims : List Claim) (h : Text)
    → lookup h (drop_all s claims).claims ≡ (if claimed claims h then none else lookup h s.claims)
unfolding drop_all drop_claim
lookup-drop_all s [] h = refl
lookup-drop_all s (c ∷ claims) h = ground (
  arith,
  lookup-drop_all (drop_claim s c) claims h,
  lookup-remove_self h s.claims,
  lookup-remove_ne c.hash h s.claims,
  text_eq→≡ c.hash h,
)

-- The claims taken so far are the deletion's, on paths that nobody had claimed.
record Holding (s t : State) (claims : List Claim) : Type 0 where
  free : (h : Text) → claimed claims h ≡ true → lookup h s.claims ≡ none
  held :
      (h : Text) → lookup h t.claims ≡ (if claimed claims h then some delete else lookup h s.claims)

pub claimed-append :
    (claims : List Claim) (c : Claim) (h : Text)
    → claimed (claims ++ c ∷ []) h ≡ (claimed claims h || text_eq c.hash h)
claimed-append [] c h = ground arith
claimed-append (d ∷ claims) c h = ground (arith, claimed-append claims c h)

released :
    (s t : State) (claims : List Claim)
    → Holding s t claims
    → (h : Text) → lookup h (drop_all t claims).claims ≡ lookup h s.claims
released s t claims v h = ground (arith, lookup-drop_all t claims h, v.free h, v.held h)

abbrev taken : State → Text → State
taken t hash = record t { claims = (hash, delete) ∷ t.claims }

taken-Holding :
    (s t : State) (claims : List Claim) (hash : Text)
    → Holding s t claims
    → lookup hash t.claims ≡ none
    → Holding s (taken t hash) (claims ++ record { hash = hash } ∷ [])
unfolding lookup
taken-Holding s t claims hash v n = record {
  free = λ h c. ground (
    arith,
    claimed-append claims (record { hash = hash }) h,
    v.free h,
    v.held h,
    text_eq→≡ hash h,
  );
  held = λ h.
      ground (arith, claimed-append claims (record { hash = hash }) h, v.held h, text_eq→≡ hash h);
}

-- What `claim_each` leaves, by its result.
abbrev Ends : State → List Claim → List Text → State × Result (List Claim) BusyPath → Type 0
Ends s claims hashes (t, ok all) =
    Holding s t all × ((h : Text) → claimed all h ≡ (claimed claims h || any (text_eq h) hashes))
Ends s claims hashes (t, err e) = (h : Text) → lookup h t.claims ≡ lookup h s.claims

claim_each-Ends :
    (s t : State) (hashes : List Text) (claims : List Claim)
    → Holding s t claims
    → Ends s claims hashes (claim_each t hashes claims)
unfolding claim_each
claim_each-Ends s t [] claims v = (v, λ h. ground arith)
claim_each-Ends s t (hash ∷ hashes) claims v = elim (Option-cases (lookup hash t.claims)) [
  | inr (k, e) ↦ rw ((claim_delete_lem t hash).0 k e, claim_each) (released s t claims v)
  | inl n ↦
      rw ((claim_delete_lem t hash).1 n, claim_each)
        (extends (claim_each (taken t hash) hashes (claims ++ record { hash = hash } ∷ [])) (
          claim_each-Ends s (taken t hash) hashes (claims ++ record { hash = hash } ∷ [])
            (taken-Holding s t claims hash v n)))
]
  where
    extends :
        (r : State × Result (List Claim) BusyPath)
        → Ends s (claims ++ record { hash = hash } ∷ []) hashes r
        → Ends s claims (hash ∷ hashes) r
    extends (u, ok all) w = (
      w.0,
      λ h.
          ground
            (arith, w.1 h, claimed-append claims (record { hash = hash }) h, text_eq_sym hash h),
    )
    extends (u, err e) w = w

-- What `claim_all` promises of the map, by its result.
abbrev pub AllOrNone : State → List Text → State × Result Deletion BusyPath → Type 0
AllOrNone s hashes (t, ok d) =
    (h : Text)
    → (lookup h t.claims ≡ (if any (text_eq h) hashes then some delete else lookup h s.claims))
      × ((any (text_eq h) hashes && is_some (lookup h s.claims)) ≡ false)
      × (claimed d.claims h ≡ any (text_eq h) hashes)
AllOrNone s hashes (t, err e) = (h : Text) → lookup h t.claims ≡ lookup h s.claims

begun-AllOrNone :
    (s : State) (hashes : List Text) (r : State × Result (List Claim) BusyPath)
    → Ends s [] hashes r
    → AllOrNone s hashes (begun r)
begun-AllOrNone s hashes (t, ok all) v =
    λ h. (rw (← v.1 h) (v.0.held h), ground (arith, v.0.free h, v.1 h), v.1 h)
begun-AllOrNone s hashes (t, err e) v = v

-- An admin command holds either every path that it names, each of which nobody had claimed, or none:
-- a refusal gives back what it had claimed, so the map is as it was at every path.
pub claim_all_lem : (s : State) (hashes : List Text) → AllOrNone s hashes (claim_all s hashes)
unfolding claim_all
claim_all_lem s hashes =
    begun-AllOrNone s hashes (claim_each s hashes [])
      (claim_each-Ends s s hashes [] (record { free = λ h c. cc; held = λ h. refl }))

-- The path is claimed, and the refusal says how.
abbrev pub IsBusy : State → BusyPath → Type 0
IsBusy s p = (k : Kind) × (lookup p.0 s.claims ≡ some k) × (p.1 ≡ busy_with k)

claim_each-IsBusy :
    (s t : State) (hashes : List Text) (claims : List Claim) {u : State} {p : BusyPath}
    → Holding s t claims
    → Distinct hashes
    → ((h : Text) → mem h hashes ≡ true → claimed claims h ≡ false)
    → claim_each t hashes claims ≡ (u, err p)
    → (mem p.0 hashes ≡ true) × IsBusy s p
unfolding claim_each
claim_each-IsBusy s t [] claims v d new e = cc
claim_each-IsBusy s t (hash ∷ hashes) claims {u} {p} v d new e =
    elim (Option-cases (lookup hash t.claims)) [
      | inr (k, there) ↦
          let same : (hash, busy_with k) ≡ p = err-injective (
            ap (λ (x : State × Result (List Claim) BusyPath). x.1)
              (rw ((claim_delete_lem t hash).0 k there, claim_each) at e)) in
          let mine : claimed claims hash ≡ false = new hash (ground (arith, text_eq_refl hash)) in
          subst (λ (x : BusyPath). (mem x.0 (hash ∷ hashes) ≡ true) × IsBusy s x) same
            (ground (arith, text_eq_refl hash), (k, ground (arith, v.held hash, mine, there), refl))
      | inl n ↦
          let c : Claim = record { hash = hash } in
          let rest =
            claim_each-IsBusy s (taken t hash) hashes (claims ++ c ∷ []) {u = u} {p = p}
              (taken-Holding s t claims hash v n) d.1
              (λ h m.
                ground (arith, claimed-append claims c h, new h, m, d.0, mem_same hash h hashes))
              (rw ((claim_delete_lem t hash).1 n, claim_each) at e) in
          (ground (arith, rest.0), rest.1)
    ]

-- Of distinct paths, the one that a refusal names is among them and was claimed before.
pub claim_all-IsBusy :
    (s : State) (hashes : List Text) {t : State} {p : BusyPath}
    → Distinct hashes
    → claim_all s hashes ≡ (t, err p)
    → (mem p.0 hashes ≡ true) × IsBusy s p
unfolding claim_all
claim_all-IsBusy s hashes {t} {p} d e =
    claim_each-IsBusy s s hashes [] {u = t} {p = p} (record { free = λ h c. cc; held = λ h. refl })
      d (λ h m. refl) (refused (claim_each s hashes []) e)
  where
    refused : (r : State × Result (List Claim) BusyPath) → begun r ≡ (t, err p) → r ≡ (t, err p)
    refused (u, ok all) e = cc
    refused (u, err x) e = cc

-- The claims of a deletion that is over are on no path any more, and the others stay.
pub drop_all-released :
    (s t : State) (hashes : List Text) (d : Deletion)
    → AllOrNone s hashes (t, ok d)
    → (h : Text) → lookup h (drop_all t d.claims).claims ≡ lookup h s.claims
drop_all-released s t hashes d a h =
    ground (arith, lookup-drop_all t d.claims h, (a h).0, (a h).1, (a h).2)
