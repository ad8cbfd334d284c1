-- ===== src/Auth/Keys/Floor.antt =====
-- crates/garret-server/src/auth.rs: how often an issuer's keys are fetched.
use garret.Common.{
  ℕ, ◌+◌, ◌≤◌, ◌≡◌, ◌⊎◌, refl, sym, ap, subst, ◌∙◌, Bool, true, false, Bool-cases, Option, none,
  some, List, [], ◌∷◌, if◌then◌else◌, Text, leb, arith, inl, inr,
}
use garret.Auth.Keys.{
  KeySet, no_keys, Attempt, started_fetch, joined_fetch, is_past, refresh, fetch_ends, min_refresh,
}

-- What happens to an issuer's keys: a caller asks for a refresh, or the fetch in flight ends.
pub data Event (K : Type 0) : Type 0 where
  asked : ℕ → Event K
  fetch_ended : ℕ → Option (List (Text × K)) → Event K

abbrev pub time_of : {K : Type 0} → Event K → ℕ
time_of (asked t) = t
time_of (fetch_ended t fetched) = t

-- The events come in the order of their times.
abbrev pub InOrder : {K : Type 0} → ℕ → List (Event K) → Type 0
InOrder now [] = Unit
InOrder now (e ∷ events) = (now ≤ time_of e) × InOrder (time_of e) events

-- What is seen of the fetches.
pub data Mark : Type 0 where
  begun : ℕ → Mark
  finished : ℕ → Mark

abbrev pub begun_then : ℕ → Option Attempt → List Mark → List Mark
begun_then t none marks = marks
begun_then t (some joined_fetch) marks = marks
begun_then t (some started_fetch) marks = begun t ∷ marks

abbrev pub marks : {K : Type 0} → KeySet K → List (Event K) → List Mark
marks s [] = []
marks s (asked t ∷ events) = let r = refresh t s in begun_then t r.0 (marks r.1 events)
marks s (fetch_ended t fetched ∷ events) =
    let rest = marks (fetch_ends t fetched s) events in
    if s.in_flight then finished t ∷ rest else marks s events

-- One fetch at a time, and from the end of one to the beginning of the next the floor goes by. The
-- option says when the next may begin, and `none` that one is in flight.
abbrev pub IsFloored : Option ℕ → List Mark → Type 0
IsFloored flight [] = Unit
IsFloored (some lo) (begun t ∷ ms) = (lo ≤ t) × IsFloored none ms
IsFloored none (finished t ∷ ms) = IsFloored (some (t + min_refresh)) ms
IsFloored (some lo) (finished t ∷ ms) = ⊥
IsFloored none (begun t ∷ ms) = ⊥

-- No fetch begins before `lo`.
abbrev Held : {K : Type 0} → ℕ → ℕ → KeySet K → Type 0
Held lo now s = (lo ≤ now) ⊎ ((n : ℕ) × (s.next_attempt ≡ some n) × (lo ≤ n))

Held-past :
    {K : Type 0} (lo now t : ℕ) (s : KeySet K)
    → now ≤ t
    → is_past t s.next_attempt ≡ true
    → Held lo now s
    → lo ≤ t
Held-past lo now t s b past (inl l) = omega (arith, l, b)
Held-past lo now t s b past (inr (n, e, l)) =
    let due : leb n t ≡ true = ap (is_past t) (sym e) ∙ past in ground (arith, due, l)

Held-later : {K : Type 0} (lo now t : ℕ) (s : KeySet K) → now ≤ t → Held lo now s → Held lo t s
Held-later lo now t s b (inl l) = inl (omega (arith, l, b))
Held-later lo now t s b (inr h) = inr h

asked_marks : {K : Type 0} → ℕ → List (Event K) → Option Attempt × KeySet K → List Mark
asked_marks t events r = begun_then t r.0 (marks r.1 events)

abbrev idle_refresh : {K : Type 0} → ℕ → KeySet K → Bool → Option Attempt × KeySet K
idle_refresh t s true = (some started_fetch, record s { in_flight = true })
idle_refresh t s false = (none, s)

refresh-busy :
    {K : Type 0} (t : ℕ) (s : KeySet K) → s.in_flight ≡ true → refresh t s ≡ (some joined_fetch, s)
unfolding refresh
refresh-busy t s busy =
    ap
      (λ b.
        if b
        then (some joined_fetch, s)
        else if is_past t s.next_attempt
        then (some started_fetch, record s { in_flight = true })
        else (none, s))
      busy

refresh-idle :
    {K : Type 0} (t : ℕ) (s : KeySet K) (past : Bool)
    → s.in_flight ≡ false
    → is_past t s.next_attempt ≡ past
    → refresh t s ≡ idle_refresh t s past
unfolding refresh
refresh-idle t s past idle e =
    ap
      (λ b.
        if b
        then (some joined_fetch, s)
        else if is_past t s.next_attempt
        then (some started_fetch, record s { in_flight = true })
        else (none, s))
      idle
    ∙ ap (λ b. if b then (some started_fetch, record s { in_flight = true }) else (none, s)) e
    ∙ chosen past
  where
    chosen :
        (b : Bool)
        → (if b then (some started_fetch, record s { in_flight = true }) else (none, s))
          ≡ idle_refresh t s b
    chosen true = refl
    chosen false = refl

-- A fetch is in flight, or the next one is held back.
abbrev Fits : {K : Type 0} → Option ℕ → ℕ → KeySet K → Type 0
Fits none now s = s.in_flight ≡ true
Fits (some lo) now s = (s.in_flight ≡ false) × Held lo now s

Fits-later :
    {K : Type 0} (flight : Option ℕ) (now t : ℕ) (s : KeySet K)
    → now ≤ t
    → Fits flight now s
    → Fits flight t s
Fits-later none now t s b f = f
Fits-later (some lo) now t s b f = (f.0, Held-later lo now t s b f.1)

marks-IsFloored :
    {K : Type 0} (s : KeySet K) (events : List (Event K)) (flight : Option ℕ) (now : ℕ)
    → InOrder now events
    → Fits flight now s
    → IsFloored flight (marks s events)
unfolding asked_marks fetch_ends
marks-IsFloored s [] flight now o f = tt
marks-IsFloored s (asked t ∷ events) none now (b, o) f =
    subst (λ r. IsFloored none (asked_marks t events r)) (sym (refresh-busy t s f))
      (marks-IsFloored s events none t o f)
marks-IsFloored s (asked t ∷ events) (some lo) now (b, o) (idle, h) =
    elim (Bool-cases (is_past t s.next_attempt)) [
      | inl past ↦
          subst (λ r. IsFloored (some lo) (asked_marks t events r))
            (sym (refresh-idle t s true idle past))
            (
              Held-past lo now t s b past h,
              marks-IsFloored (record s { in_flight = true }) events none t o refl,
            )
      | inr early ↦
          subst (λ r. IsFloored (some lo) (asked_marks t events r))
            (sym (refresh-idle t s false idle early))
            (marks-IsFloored s events (some lo) t o (idle, Held-later lo now t s b h))
    ]
marks-IsFloored s (fetch_ended t fetched ∷ events) none now (b, o) f =
    let ended = fetch_ends t fetched s in
    subst (λ c. IsFloored none (if c then finished t ∷ marks ended events else marks s events))
      (sym f)
      (marks-IsFloored ended events (some (t + min_refresh)) t o
        (refl, inr (t + min_refresh, refl, omega arith)))
marks-IsFloored s (fetch_ended t fetched ∷ events) (some lo) now (b, o) f =
    let ended = fetch_ends t fetched s in
    subst (λ c. IsFloored (some lo) (if c then finished t ∷ marks ended events else marks s events))
      (sym f.0) (marks-IsFloored s events (some lo) t o (Fits-later (some lo) now t s b f))

-- Whatever callers ask for a refresh and however the fetches end, as long as the events come in the
-- order of their times: there is one fetch at a time, and from the end of one to the beginning of the
-- next at least `min_refresh` seconds go by.
pub no_keys-IsFloored :
    {K : Type 0} (events : List (Event K)) (now : ℕ)
    → InOrder now events
    → IsFloored (some now) (marks (no_keys {K = K}) events)
no_keys-IsFloored {K} events now o =
    marks-IsFloored (no_keys {K = K}) events (some now) now o (refl, inl (omega arith))
