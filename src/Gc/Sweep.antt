-- ===== src/Gc/Sweep.antt =====
-- The orphan sweep of crates/garret-pusher/src/gc.rs. It holds the database from the last row check
-- to the last claim; the in-flight map is free meanwhile, and `meanwhile` is what happens to it before
-- each claim. The abort of stale multipart uploads touches neither and is a wait.
pub mod Orphans
use garret.Common.{
  ℕ, zero, suc, ◌+◌, ◌≤◌, ◌≡◌, ◌≢◌, refl, sym, ap, subst, ◌∙◌, Bool, true, false, not, ◌&&◌, ◌||◌,
  Option, none, some, List, [], ◌∷◌, ◌++◌, map, arith, if◌then◌else◌, Text, text_eq, text_eq→≡,
  text_eq_sym, text_eq_refl, any, filter, is_some, leb, inl, inr, Bool-cases, Option-cases, All,
  All-imp, All-append, length,
}
use garret.Common.Result.{Result, ok, err}
use garret.InFlight.{State, Claim, contains, claim_delete, drop_claim, take}
use garret.InFlight.Claims.{Kind, delete, lookup, remove, lookup-remove_self, lookup-remove_ne}
use garret.InFlight.Counted.{claim_delete_lem}
use garret.Db.Schema.{Database}
use garret.Db.Objects.{exists, all_hashes}
use garret.Deletion.{Deletion, nothing, queue_blob, hold, len, finish}
use garret.Deletion.Claims.{claimed, claimed-append}
use garret.Storage.{Blob, is_orphan, orphan_hashes}
use garret.Gc.{Shared, Environment, wait}

module _ (meanwhile : ℕ → State → State) where
  -- One orphan: its claim is kept unless its row has landed.
  abbrev judged : Database → Deletion → State × Claim → State × Deletion
  judged db d (t, c) = if exists db c.hash then (drop_claim t c, d) else (t, hold d c)

  unfoldable pub sweep_each : Database → List Text → State × Deletion → State × Deletion
  unfolding exists hold
  sweep_each db [] a = a
  sweep_each db (hash ∷ hashes) a = elim (claim_delete (meanwhile (length hashes) a.0) hash) [
    | err busy ↦ sweep_each db hashes (meanwhile (length hashes) a.0, a.1)
    | ok r ↦ sweep_each db hashes (judged db a.1 r)
  ]

  -- The closure that holds the database.
  unfoldable pub claim_orphans : Database → State → List Blob → List Text → ℕ → State × Deletion
  unfolding sweep_each orphan_hashes
  claim_orphans db s blobs known grace =
      sweep_each db (orphan_hashes blobs known s grace) (s, nothing)

  module _ (env : Environment) (list_blobs : Shared → List Blob) where
    abbrev ended : Shared → ℕ → State × List Text × Bool → ℕ × Bool × Shared
    ended s count (in_flight, left, deleted) =
        (count, deleted, record s { in_flight = in_flight; blobs = left })

    -- How many orphans were claimed, and whether S3 reported their deletion.
    unfoldable pub sweep : ℕ → Shared → ℕ × Bool × Shared
    unfolding claim_orphans all_hashes len finish
    sweep grace s0 =
        let s1 = wait env s0 in
        let known = all_hashes s1.db in
        let s2 = wait env s1 in
        let blobs = list_blobs s2 in
        let s3 = wait env s2 in
        let s4 = wait env s3 in
        let (in_flight, deletion) = claim_orphans s4.db s4.in_flight blobs known grace in
        let s5 = wait env (record s4 { in_flight = in_flight }) in
        ended s5 (len deletion) (finish env.delete_objects s5.in_flight s5.blobs deletion)
