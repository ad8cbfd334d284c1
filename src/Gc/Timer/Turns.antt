-- ===== src/Gc/Timer/Turns.antt =====
-- crates/garret-pusher/src/gc.rs: the schedule goes on, and where each turn of it leaves the cache.
use garret.Common.{
  length, ◌≤◌, ℕ, zero, suc, ◌<◌, ◌≡◌, ◌⊎◌, refl, sym, ap, subst, ◌∙◌, Bool, true, false,
  Bool-cases, Option, some, List, inl, inr,
}
use garret.InFlight.{State}
use garret.Storage.{Blob}
use garret.Db.Schema.{Database, sum_sizes}
use garret.Db.WellFormed.{IsWellFormed}
use garret.Gc.{tick, Shared, Environment, Ending, done, failed, Tick, idle, ran, wait}
use garret.Gc.Endings.{Ended, Ticked}
use garret.Gc.Ends.{tick-Ticked}
use garret.Gc.Sweep.{sweep}
use garret.Gc.Timer.{Timer, swept, is_due, left_by, ticked, sweep_if_due, one_turn, run_forever}

-- A turn from `t` to `u` whose tick starts at `s`: below the high watermark the rows stay what they
-- were; from there on the tick ran a pass to its end, and `u` is what that pass left.
abbrev pub Turned : Environment → ℕ → ℕ → Shared → Timer → Timer → Type 0
Turned env high low s t u =
    ((sum_sizes t.shared.db.objects < high) × (u.shared.db ≡ t.shared.db))
    ⊎ ((high ≤ sum_sizes t.shared.db.objects)
        × ((ending : Ending) × (tick env (suc (length s.db.objects)) high low s ≡ ran (some ending))
            × (u.shared ≡ left_by ending)
            × Ended env (sum_sizes t.shared.db.objects) low ending))

abbrev Goes : Environment → ℕ → ℕ → Shared → Timer → Option Timer → Type 0
Goes env high low s t o =
    (u : Timer) × (o ≡ some u) × IsWellFormed u.shared.db × Turned env high low s t u

left_by-IsWellFormed :
    (env : Environment) (total low : ℕ) (ending : Ending)
    → Ended env total low ending
    → IsWellFormed (left_by ending).db
left_by-IsWellFormed env total low (done p) e = e.0.well_formed
left_by-IsWellFormed env total low (failed p) e = e.0.well_formed

ticked-Goes :
    (env : Environment) (high low : ℕ) (t v : Timer) (s : Shared) (result : Tick)
    → tick env (suc (length s.db.objects)) high low s ≡ result
    → s.db ≡ t.shared.db
    → IsWellFormed s.db
    → Ticked env high low s result
    → Goes env high low s t (ticked v result)
ticked-Goes env high low t v s (idle u) is same w (kept, below) = (
  record v { shared = u },
  refl,
  rw kept w,
  inl (subst (λ (d : Database). sum_sizes d.objects < high) same below, kept ∙ same),
)
ticked-Goes env high low t v s (ran o) is same w (past, (ending, ended, e)) =
    subst (λ x. Goes env high low s t (ticked v (ran x))) (sym ended)
      (
        record v { shared = left_by ending },
        refl,
        left_by-IsWellFormed env (sum_sizes s.db.objects) low ending e,
        inr (
          subst (λ (d : Database). high ≤ sum_sizes d.objects) same past,
          (
            ending,
            is ∙ ap ran ended,
            refl,
            subst (λ (d : Database). Ended env (sum_sizes d.objects) low ending) same e,
          ),
        ),
      )

swept-db : (now : ℕ) (t : Timer) (r : ℕ × Bool × Shared) → (swept now t r).shared ≡ r.2
swept-db now t (count, true, s) = refl
swept-db now t (count, false, s) = refl

-- Where the tick of a turn starts.
abbrev pub entered :
    Environment → (ℕ → State → State) → (Shared → List Blob) → (ℕ → ℕ) → ℕ → ℕ → ℕ → Timer → Shared
entered env meanwhile list_blobs instant grace high low t =
    wait env (sweep_if_due env meanwhile list_blobs instant grace high low t).shared

module _ (env : Environment) (alone : (n : ℕ) (s : Shared) → env.others n s ≡ s)
    (meanwhile : ℕ → State → State) (list_blobs : Shared → List Blob) (instant : ℕ → ℕ)
    (grace high low : ℕ) where
  waited_db : (s : Shared) → (wait env s).db ≡ s.db
  waited_db s = ap (λ (x : Shared). x.db) (alone s.waits s)

  sweep-db : (s : Shared) → (sweep meanwhile env list_blobs grace s).2.db ≡ s.db
  unfolding sweep
  sweep-db s =
      ap (λ (x : Shared). x.db) (alone _ _)
      ∙ waited_db (wait env (wait env (wait env s)))
      ∙ waited_db (wait env (wait env s))
      ∙ waited_db (wait env s)
      ∙ waited_db s

  sweep_if_due-db :
      (t : Timer)
      → (sweep_if_due env meanwhile list_blobs instant grace high low t).shared.db ≡ t.shared.db
  unfolding sweep_if_due
  sweep_if_due-db t =
      let r = sweep meanwhile env list_blobs grace t.shared in
      elim (Bool-cases (is_due (instant t.shared.waits) t.last_sweep)) [
        | inl due ↦
            rw due
              (ap (λ (x : Shared). x.db) (swept-db (instant r.2.waits) t r) ∙ sweep-db t.shared)
        | inr early ↦ rw early refl
      ]

  one_turn-Goes :
      (t : Timer)
      → IsWellFormed t.shared.db
      → Goes env high low
          (entered env meanwhile list_blobs instant grace high low t)
          t
          (one_turn env meanwhile list_blobs instant grace high low t)
  unfolding one_turn
  one_turn-Goes t w =
      let u = sweep_if_due env meanwhile list_blobs instant grace high low t in
      let same : (entered env meanwhile list_blobs instant grace high low t).db ≡ t.shared.db =
        waited_db u.shared ∙ sweep_if_due-db t in
      let v : IsWellFormed (entered env meanwhile list_blobs instant grace high low t).db =
        rw same w in
      ticked-Goes env high low t u (entered env meanwhile list_blobs instant grace high low t) _
        refl same v
        (tick-Ticked env alone high low (entered env meanwhile list_blobs instant grace high low t)
          v)

  turns-IsWellFormed :
      (n : ℕ) (t : Timer)
      → IsWellFormed t.shared.db
      → (u : Timer) × (run_forever env meanwhile list_blobs instant grace high low n t ≡ some u)
        × IsWellFormed u.shared.db
  unfolding run_forever
  turns-IsWellFormed zero t w = (t, refl, w)
  turns-IsWellFormed (suc n) t w =
      let (u, e, v, _) = one_turn-Goes t w in rw e (turns-IsWellFormed n u v)

  -- With nothing else running the schedule never stops: after every number of turns the tables are
  -- well formed and there is a next turn. Below the high watermark that turn leaves the rows alone;
  -- from the high watermark on its pass ends for one of the reasons a pass has, with exact counts.
  pub run_forever-Turned :
      (turns : ℕ) (t : Timer)
      → IsWellFormed t.shared.db
      → (u : Timer) × (v : Timer) × (run_forever env meanwhile list_blobs instant grace high low
            turns t
          ≡ some u)
        × (one_turn env meanwhile list_blobs instant grace high low u ≡ some v)
        × IsWellFormed u.shared.db
        × Turned env high low (entered env meanwhile list_blobs instant grace high low u) u v
  run_forever-Turned turns t w =
      let (u, e, w') = turns-IsWellFormed turns t w in
      let (v, next, _, turned) = one_turn-Goes u w' in (u, v, e, next, w', turned)
