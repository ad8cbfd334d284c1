-- ===== src/Gc/Accounting.antt =====
-- The eviction pass of crates/garret-pusher/src/gc.rs with nothing else running: its count
-- of the usage against the rows.
use garret.Common.{
  true, is_some, ◌∙◌, ℕ, ◌≤◌, ◌<◌, ◌≡◌, refl, sym, ap, ◌⊎◌, some, List, [], ◌∷◌, arith, Text, inl,
  inr, Bool-cases, length, All,
}
use garret.Common.Int.{pos, ltb_ℤ}
use garret.Common.Result.{Result-cases}
use garret.InFlight.{claim_delete}
use garret.InFlight.Claims.{lookup}
use garret.InFlight.Counted.{claim_delete-busy}
use garret.Db.Evict.{evict_object}
use garret.Gc.{Shared, Pass, Environment, wait, candidate_step, evict_claimed, evict_batch}
use garret.Gc.Exact.{
  IsExact, Tried, answered, went_sum, Tried-IsExact, le_of_lt', lt_trans', some-none, refused,
  stayed, went,
}

module _ (env : Environment) (alone : (n : ℕ) (s : Shared) → env.others n s ≡ s) where
  candidate_step-Tried : (at : ℕ) (p : Pass) (h : Text) → Tried at p h (candidate_step env at p h)
  unfolding candidate_step evict_claimed
  candidate_step-Tried at p h = elim (Result-cases (claim_delete p.shared.in_flight h)) [
    | inr (busy, e) ↦
        let (k, there, _) = claim_delete-busy p.shared.in_flight h {b = busy} e in
        rw (e, candidate_step) (refused (rw there refl) refl)
    | inl (r, e) ↦
        let s : Shared = record p.shared { in_flight = r.0 } in
        let q : Pass = record p { shared = wait env s } in
        let same : q.shared.db ≡ p.shared.db = ap (λ (t : Shared). t.db) (alone p.shared.waits s) in
        rw (e, candidate_step)
          (answered env at p q h r.1 (evict_object q.shared.db h at)
            (ap (λ d. evict_object d h at) (sym same)) same refl refl refl)
  ]

  candidate_step-IsExact :
      (total at : ℕ) (p : Pass) (h : Text)
      → IsExact total p
      → IsExact total (candidate_step env at p h)
  candidate_step-IsExact total at p h v =
      Tried-IsExact total at p h _ v (candidate_step-Tried at p h)

  pub evict_batch-IsExact :
      (total low at : ℕ) (cs : List (Text × ℕ)) (p : Pass)
      → IsExact total p
      → IsExact total (evict_batch env low at cs p)
  unfolding evict_batch
  evict_batch-IsExact total low at [] p v = v
  evict_batch-IsExact total low at (c ∷ cs) p v =
      let q = candidate_step env at p c.0 in
      let w = candidate_step-IsExact total at p c.0 v in
      elim (Bool-cases (ltb_ℤ (pos low) q.usage)) [
        | inl t ↦ rw t (evict_batch-IsExact total low at cs q w)
        | inr f ↦ rw f w
      ]

  -- No candidate adds a row.
  candidate_step-le :
      (total at : ℕ) (p : Pass) (h : Text)
      → IsExact total p
      → length (candidate_step env at p h).shared.db.objects ≤ length p.shared.db.objects
  candidate_step-le total at p h v = elim (candidate_step-Tried at p h) [
    | refused b e ↦ rw e (omega arith)
    | stayed n db usage bytes s ↦ rw db (omega arith)
    | went size n db usage bytes s ↦ rw db (le_of_lt' (went_sum total p h at size v n).0)
  ]

  evict_batch-le :
      (total low at : ℕ) (cs : List (Text × ℕ)) (p : Pass)
      → IsExact total p
      → length (evict_batch env low at cs p).shared.db.objects ≤ length p.shared.db.objects
  unfolding evict_batch
  evict_batch-le total low at [] p v = omega arith
  evict_batch-le total low at (c ∷ cs) p v =
      let q = candidate_step env at p c.0 in
      let w = candidate_step-IsExact total at p c.0 v in
      let step = candidate_step-le total at p c.0 v in
      elim (Bool-cases (ltb_ℤ (pos low) q.usage)) [
        | inl t ↦ rw t (omega (arith, evict_batch-le total low at cs q w, step))
        | inr f ↦ rw f step
      ]

  -- Once a candidate was settled, the batch is.
  candidate_step-settled :
      (at : ℕ) (p : Pass) (h : Text) → p.settled ≡ true → (candidate_step env at p h).settled ≡ true
  candidate_step-settled at p h s = elim (candidate_step-Tried at p h) [
    | refused b e ↦ ap (λ (x : Pass). x.settled) e ∙ s
    | stayed n db usage bytes t ↦ t
    | went size n db usage bytes t ↦ t
  ]

  evict_batch-settled :
      (low at : ℕ) (cs : List (Text × ℕ)) (p : Pass)
      → p.settled ≡ true
      → (evict_batch env low at cs p).settled ≡ true
  unfolding evict_batch
  evict_batch-settled low at [] p s = s
  evict_batch-settled low at (c ∷ cs) p s =
      let q = candidate_step env at p c.0 in
      let w = candidate_step-settled at p c.0 s in
      elim (Bool-cases (ltb_ℤ (pos low) q.usage)) [
        | inl t ↦ rw t (evict_batch-settled low at cs q w)
        | inr f ↦ rw f w
      ]

  -- A batch of fresh candidates, above the low watermark, finds every one of them in flight and leaves
  -- everything alone, or it removes a row and is settled.
  pub evict_batch-progress :
      (total low at : ℕ) (cs : List (Text × ℕ)) (p : Pass)
      → IsExact total p
      → ltb_ℤ (pos low) p.usage ≡ true
      → All (λ (c : Text × ℕ). (evict_object p.shared.db c.0 at).0 ≡ some c.1) cs
      → ((evict_batch env low at cs p ≡ p)
          × All (λ (c : Text × ℕ). is_some (lookup c.0 p.shared.in_flight.claims) ≡ true) cs)
        ⊎ ((length (evict_batch env low at cs p).shared.db.objects < length p.shared.db.objects)
            × ((evict_batch env low at cs p).settled ≡ true))
  unfolding evict_batch
  evict_batch-progress total low at [] p v over fresh = inl (refl, tt)
  evict_batch-progress total low at (c ∷ cs) p v over fresh = elim (candidate_step-Tried at p c.0) [
    | refused b e ↦
        rw (e, over)
          (elim (evict_batch-progress total low at cs p v over fresh.1) [
            | inl (same, busy) ↦ inl (same, (b, busy))
            | inr fewer ↦ inr fewer
          ])
    | stayed n db usage bytes s ↦ absurd (some-none n fresh.0)
    | went size n db usage bytes s ↦
        let q = candidate_step env at p c.0 in
        let w = candidate_step-IsExact total at p c.0 v in
        let fewer : length q.shared.db.objects < length p.shared.db.objects =
          rw db (went_sum total p c.0 at size v n).0 in
        elim (Bool-cases (ltb_ℤ (pos low) q.usage)) [
          | inl t ↦ rw t (
              inr (
                lt_trans' (evict_batch-le total low at cs q w) fewer,
                evict_batch-settled low at cs q s,
              ))
          | inr f ↦ rw f (inr (fewer, s))
        ]
  ]
