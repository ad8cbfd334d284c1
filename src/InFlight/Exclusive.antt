-- ===== src/InFlight/Exclusive.antt =====
-- crates/garret-server/src/inflight.rs used by many tasks: the claims that tasks hold
-- against the map, over sequences of calls.
use garret.Common.{
  mem, ℕ, ◌+◌, ◌-◌, ◌≡◌, ◌≢◌, refl, ap, sym, ◌∙◌, true, false, not, some, List, [], ◌∷◌, arith,
  if◌then◌else◌, Text, text_eq, text_eq_refl, text_eq→≡, text_eq_sym, filter, is_some, ltb, ◌==◌,
  Option-cases, Bool-cases, inl, inr,
}
use garret.Common.Result.{Result, ok, err, map_err}
use garret.InFlight.Claims.{
  Kind, upload, delete, lookup, weight, lookup-remove_self, lookup-remove_ne, count_uploads-zero,
}
use garret.InFlight.{
  State, Claim, Busy, new, take, claim, claim_delete, quiesce, drop_guard, drop_claim, drained,
  refused_from,
}
use garret.InFlight.Counted.{IsCounted, new-IsCounted, take-IsCounted, drop_claim-IsCounted}

-- The shared state, the claims that live somewhere, and how many guards live.
pub record World : Type 0 where
  pub state : State
  pub held : List Text
  pub guards : ℕ

-- One call, by any task.
pub data Call : Type 0 where
  uploads deletes drops : Text → Call
  shuts reopens : Call

abbrev pub without : Text → List Text → List Text
without h = filter (λ j. not (text_eq h j))

-- A claim that was granted is held; a refused call changes nothing.
abbrev pub granted {ℓ} : {E : Type ℓ} → World → Result (State × Claim) E → World
granted w (ok (s, c)) = record w { state = s; held = c.hash ∷ w.held }
granted w (err e) = w

-- A claim or a guard that nobody holds is not dropped.
unfoldable pub step : World → Call → World
step w (uploads h) = granted w (claim w.state h)
step w (deletes h) = granted w (claim_delete w.state h)
step w (drops h) =
    if mem h w.held
    then record w { state = drop_claim w.state (record { hash = h }); held = without h w.held }
    else w
step w shuts = record w { state = quiesce w.state; guards = w.guards + 1 }
step w reopens =
    if w.guards == 0 then w else record w { state = drop_guard w.state; guards = w.guards - 1 }

unfoldable pub run : World → List Call → World
run w [] = w
run w (c ∷ cs) = run (step w c) cs

unfoldable pub start : World
start = record { state = new; held = []; guards = 0 }

-- No path is held twice.
abbrev pub Apart : List Text → Type 0
Apart [] = Unit
Apart (h ∷ hs) = (mem h hs ≡ false) × Apart hs

pub record IsOwned (w : World) : Type 0 where
  pub counted : IsCounted w.state
  pub apart : Apart w.held
  pub owned : (h : Text) → mem h w.held ≡ is_some (lookup h w.state.claims)
  pub gated : w.state.quiescers ≡ w.guards

mem-without_self : (h : Text) (hs : List Text) → mem h (without h hs) ≡ false
mem-without_self h [] = refl
mem-without_self h (j ∷ hs) = ground (arith, mem-without_self h hs)

mem-without_ne :
    (h j : Text) (hs : List Text) → text_eq h j ≡ false → mem j (without h hs) ≡ mem j hs
mem-without_ne h j [] n = refl
mem-without_ne h j (k ∷ hs) n =
    ground (arith, mem-without_ne h j hs n, text_eq→≡ h k, text_eq→≡ j k, text_eq_sym h j)

mem-without-false : (h j : Text) (hs : List Text) → mem j hs ≡ false → mem j (without h hs) ≡ false
mem-without-false h j [] e = refl
mem-without-false h j (k ∷ hs) e = ground (arith, mem-without-false h j hs)

without-Apart : (h : Text) (hs : List Text) → Apart hs → Apart (without h hs)
without-Apart h [] a = tt
without-Apart h (j ∷ hs) a = ground (arith, without-Apart h hs a.1, mem-without-false h j hs)

granted-map_err :
    (w : World) (r : Result (State × Claim) Busy) → granted w (map_err refused_from r) ≡ granted w r
granted-map_err w (ok a) = refl
granted-map_err w (err e) = refl

take-IsOwned :
    (w : World) (h : Text) (k : Kind) → IsOwned w → IsOwned (granted w (take w.state h k))
unfolding take lookup
take-IsOwned w h k v = elim (Option-cases (lookup h w.state.claims)) [
  | inr (held, e) ↦ rw (e, take) v
  | inl e ↦
      rw (e, take)
        record {
          counted = take-IsCounted w.state h k {c = record { hash = h }} v.counted (rw (e, take));
          apart = (ground (arith, v.owned h), v.apart);
          owned = λ j. ground (arith, v.owned j, text_eq_sym j h);
          gated = v.gated;
        }
]

drop-IsOwned :
    (w : World) (h : Text)
    → IsOwned w
    → IsOwned
        (record w { state = drop_claim w.state (record { hash = h }); held = without h w.held })
unfolding drop_claim
drop-IsOwned w h v = record {
  counted = drop_claim-IsCounted w.state (record { hash = h }) v.counted;
  apart = without-Apart h w.held v.apart;
  owned = λ j. ground (
    arith,
    v.owned j,
    mem-without_self h w.held,
    mem-without_ne h j w.held,
    lookup-remove_self h w.state.claims,
    lookup-remove_ne h j w.state.claims,
    text_eq→≡ h j,
  );
  gated = v.gated;
}

pub step-IsOwned : (w : World) (c : Call) → IsOwned w → IsOwned (step w c)
unfolding step claim claim_delete quiesce drop_guard
step-IsOwned w (uploads h) v = elim (Bool-cases (ltb 0 w.state.quiescers)) [
  | inl shut ↦ rw shut v
  | inr free ↦
      rw (free, claim, granted-map_err w (take w.state h upload)) (take-IsOwned w h upload v)
]
step-IsOwned w (deletes h) v = take-IsOwned w h delete v
step-IsOwned w (drops h) v = elim (Bool-cases (mem h w.held)) [
  | inl e ↦ rw e (drop-IsOwned w h v)
  | inr e ↦ rw e v
]
step-IsOwned w shuts v = ground arith
step-IsOwned w reopens v = ground arith

pub run-IsOwned : (w : World) (cs : List Call) → IsOwned w → IsOwned (run w cs)
unfolding run
run-IsOwned w [] v = v
run-IsOwned w (c ∷ cs) v = run-IsOwned (step w c) cs (step-IsOwned w c v)

start-IsOwned : IsOwned start
unfolding start new lookup
start-IsOwned = record { counted = new-IsCounted; apart = tt; owned = λ h. refl; gated = refl }

-- Whatever calls tasks have made, in whatever order, no path is held twice, the map holds exactly
-- the claims that are held, `uploads` counts the upload claims, and the gate counts the live guards.
pub run-start-IsOwned : (cs : List Call) → IsOwned (run start cs)
run-start-IsOwned cs = run-IsOwned start cs start-IsOwned

-- After any calls, while a task holds a path every further claim on it is refused, an upload's and
-- a delete's, and the world stays as it was.
pub step-held_refused :
    (cs : List Call) (h : Text)
    → mem h (run start cs).held ≡ true
    → (step (run start cs) (uploads h) ≡ run start cs)
      × (step (run start cs) (deletes h) ≡ run start cs)
unfolding step claim claim_delete take
step-held_refused cs h held =
    let w = run start cs in
    elim (Option-cases (lookup h w.state.claims)) [
      | inl e ↦ cc (held, (run-start-IsOwned cs).owned h, ap is_some e)
      | inr (k, e) ↦ (ground (arith, e), ground (arith, e))
    ]

-- A path that is released can be claimed again, by a delete whatever the gate is.
pub step-drops-deletes :
    (w : World) (h : Text)
    → mem h w.held ≡ true
    → mem h (step (step w (drops h)) (deletes h)).held ≡ true
unfolding step drop_claim claim_delete take
step-drops-deletes w h held =
    rw held (ground (arith, lookup-remove_self h w.state.claims, text_eq_refl h))

abbrev NoReopen : List Call → Type 0
NoReopen [] = Unit
NoReopen (reopens ∷ cs) = ⊥
NoReopen (c ∷ cs) = NoReopen cs

-- What `drain` waits for, with the gate shut.
abbrev pub IsQuiet : World → Type 0
IsQuiet w = (w.state.quiescers ≢ 0) × (w.state.uploads ≡ 0)

step-IsQuiet : (w : World) (c : Call) → c ≢ reopens → IsOwned w → IsQuiet w → IsQuiet (step w c)
unfolding step claim claim_delete take quiesce drop_claim
step-IsQuiet w (uploads h) n v q = ground arith
step-IsQuiet w (deletes h) n v q = ground arith
step-IsQuiet w (drops h) n v q = ground arith
step-IsQuiet w shuts n v q = ground arith
step-IsQuiet w reopens n v q = absurd (n refl)

-- Once the gate is shut and the uploads have drained, no upload starts as long as no guard drops:
-- `drain` sees zero at every later moment, and no path is claimed for an upload.
pub run-IsQuiet :
    (w : World) (cs : List Call)
    → IsOwned w
    → IsQuiet w
    → NoReopen cs
    → (drained (run w cs).state ≡ true)
      × ((h : Text) → lookup h (run w cs).state.claims ≢ some upload)
unfolding run drained
run-IsQuiet w [] v q n = (
  ground arith,
  λ h e. absurd (
      omega
        (arith, count_uploads-zero w.state.claims h (sym v.counted.counted ∙ q.1), ap weight e)),
)
run-IsQuiet w (uploads h ∷ cs) v q n =
    run-IsQuiet (step w (uploads h)) cs (step-IsOwned w _ v) (step-IsQuiet w _ (λ e. cc) v q) n
run-IsQuiet w (deletes h ∷ cs) v q n =
    run-IsQuiet (step w (deletes h)) cs (step-IsOwned w _ v) (step-IsQuiet w _ (λ e. cc) v q) n
run-IsQuiet w (drops h ∷ cs) v q n =
    run-IsQuiet (step w (drops h)) cs (step-IsOwned w _ v) (step-IsQuiet w _ (λ e. cc) v q) n
run-IsQuiet w (shuts ∷ cs) v q n =
    run-IsQuiet (step w shuts) cs (step-IsOwned w _ v) (step-IsQuiet w _ (λ e. cc) v q) n
run-IsQuiet w (reopens ∷ cs) v q n = absurd n
