-- ===== src/Admin/Pruned.antt =====
-- crates/garret-pusher/src/admin.rs: `prune`, with its claims and its rows.
use garret.Common.{Distinct, ℕ, ◌+◌, ◌≡◌, ◌↔◌, true, false, none, List, Text}
use garret.Common.Result.{Result, ok, err}
use garret.InFlight.Claims.{lookup}
use garret.Db.Schema.{find, has, sum_sizes}
use garret.Db.WellFormed.{IsWellFormed}
use garret.Db.Prune.Marking.{Kept}
use garret.Db.Prune.Place.{Distinct as DistinctRows}
use garret.Deletion.{Deletion}
use garret.Deletion.Claims.{IsBusy}
use garret.Gc.{Shared}
use garret.Admin.{
  Failure, busy, blobs_left, cannot_prune, cannot_pin, no_keys, backup_failed, no_gc, out_of_fuel,
}
use garret.Admin.Removed.{SameClaims}

-- The rows that a prune leaves: those kept. It freed the other rows' bytes, and none of them was in
-- flight.
pub record Pruned (s t : Shared) (before now bytes : ℕ) : Type 0 where
  pub well_formed : IsWellFormed t.db
  pub rows : (h : Text) → (has t.db h ≡ true) ↔ ((has s.db h ≡ true) × Kept s.db before now h)
  pub same : (h : Text) → has t.db h ≡ true → find h t.db.objects ≡ find h s.db.objects
  pub freed : sum_sizes t.db.objects + bytes ≡ sum_sizes s.db.objects
  pub idle :
      (h : Text) → has s.db h ≡ true → has t.db h ≡ false → lookup h s.in_flight.claims ≡ none

-- What `prune` promises, by its result.
abbrev pub PruneOutcome : Shared → ℕ → ℕ → Result (List Text × ℕ) Failure × Shared → Type 0
PruneOutcome s before now (ok (names, bytes), t) =
    Pruned s t before now bytes × SameClaims s.in_flight t.in_flight
PruneOutcome s before now (err (busy p), t) =
    (t.db ≡ s.db)
    × SameClaims s.in_flight t.in_flight
    × ((has s.db p.0 ≡ true) × ¬ (Kept s.db before now p.0))
    × IsBusy s.in_flight p
PruneOutcome s before now (err (cannot_prune e), t) =
    (t.db ≡ s.db) × SameClaims s.in_flight t.in_flight
PruneOutcome s before now (err blobs_left, t) =
    ((bytes : ℕ) × Pruned s t before now bytes) × SameClaims s.in_flight t.in_flight
PruneOutcome s before now (err (cannot_pin e), t) = ⊥
PruneOutcome s before now (err no_keys, t) = ⊥
PruneOutcome s before now (err backup_failed, t) = ⊥
PruneOutcome s before now (err no_gc, t) = ⊥
PruneOutcome s before now (err out_of_fuel, t) = ⊥
