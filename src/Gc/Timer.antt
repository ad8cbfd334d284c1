-- ===== src/Gc/Timer.antt =====
-- crates/garret-pusher/src/gc.rs: the schedule of the sweeps and the passes. `instant` is the monotonic
-- clock, read at a wait, in seconds; the loop is cut after a number of turns.
pub mod Turns
use garret.Common.{
  ℕ, zero, suc, ◌+◌, Bool, true, false, Option, none, some, List, if◌then◌else◌, Text, leb, bind,
  length,
}
use garret.InFlight.{State}
use garret.Storage.{Blob}
use garret.Gc.{Shared, Environment, Ending, done, failed, Tick, idle, ran, wait, tick}
use garret.Gc.Sweep.{sweep}

abbrev pub sweep_interval : ℕ
sweep_interval = 604800

-- What the loop keeps between its turns.
pub record Timer : Type 0 where
  pub shared : Shared
  pub last_sweep : Option ℕ

abbrev pub is_due : ℕ → Option ℕ → Bool
is_due now none = true
is_due now (some at) = leb (at + sweep_interval) now

-- A sweep that failed leaves the time of the last one, so that the next turn tries again.
abbrev pub swept : ℕ → Timer → ℕ × Bool × Shared → Timer
swept now t (count, true, s) = record { shared = s; last_sweep = some now }
swept now t (count, false, s) = record t { shared = s }

abbrev pub left_by : Ending → Shared
left_by (done p) = p.shared
left_by (failed p) = p.shared

-- `none` for a pass that ran out of fuel.
abbrev pub ticked : Timer → Tick → Option Timer
ticked t (idle s) = some (record t { shared = s })
ticked t (ran none) = none
ticked t (ran (some ending)) = some (record t { shared = left_by ending })

module _ (env : Environment) (meanwhile : ℕ → State → State) (list_blobs : Shared → List Blob)
    (instant : ℕ → ℕ) (grace high low : ℕ) where
  unfoldable pub sweep_if_due : Timer → Timer
  sweep_if_due t =
      let result = sweep meanwhile env list_blobs grace t.shared in
      if is_due (instant t.shared.waits) t.last_sweep
      then swept (instant result.2.waits) t result
      else t

  -- One turn of the loop; the ticker is a wait.
  unfoldable pub one_turn : Timer → Option Timer
  one_turn t =
      let u = sweep_if_due t in
      let s = wait env u.shared in ticked u (tick env (suc (length s.db.objects)) high low s)

  -- The turns of the loop from the start of the Pusher on.
  unfoldable pub run_forever : ℕ → Timer → Option Timer
  run_forever zero t = some t
  run_forever (suc turns) t = bind (one_turn t) (run_forever turns)
