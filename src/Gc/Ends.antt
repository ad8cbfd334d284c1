-- ===== src/Gc/Ends.antt =====
-- How the eviction pass and the tick of crates/garret-pusher/src/gc.rs end.
use garret.Common.{
  ◌+◌, is_some, ℕ, zero, suc, ◌≤◌, ◌<◌, ◌≡◌, refl, sym, ap, subst, ◌∙◌, ◌⊎◌, Bool, true, false,
  some, List, ◌∷◌, arith, Text, inl, inr, Bool-cases, length, All,
}
use garret.Common.Int.{pos, ltb_ℤ}
use garret.Db.Schema.{Database, sum_sizes}
use garret.Db.Objects.{reconcile_total_bytes}
use garret.Db.Evict.{evictable, evict_object}
use garret.Db.WellFormed.{IsWellFormed}
use garret.Db.Candidates.{evictable-evict_object, evictable-empty}
use garret.Deletion.{nothing, finish, drop_all}
use garret.InFlight.Claims.{lookup}
use garret.Gc.{
  Shared, Pass, Environment, Ending, tick, done, finish_batch, wait, evict_batch, exhausted,
  one_batch, rounds, evict, batch_size, start,
}
use garret.Gc.Accounting.{evict_batch-IsExact, evict_batch-progress}
use garret.Gc.Exact.{IsExact}
use garret.Gc.Endings.{
  Ended, finish_batch-same, same-IsExact, List-cases, low_enough, fewer, lt_suc, Ends, Ticked,
  turn-Ends, turn-empty, reached, no_candidate, Undeleted, Reason, in_flight, not_both,
}

-- The batch before its first candidate.
abbrev emptied : Pass → Pass
emptied q = record q { deletion = nothing; settled = false }

-- What a batch of candidates, all of them in flight, leaves of the pass before it.
abbrev AllBusy : List (Text × ℕ) → Pass → Pass → Type 0
AllBusy cs q next =
    (next.settled ≡ false)
    × (next.shared.db ≡ q.shared.db)
    × (next.shared.waits ≡ q.shared.waits)
    × All (λ (x : Text × ℕ). is_some (lookup x.0 next.shared.in_flight.claims) ≡ true) cs

finish_batch-Undeleted :
    (env : Environment) (b : Pass)
    → (finish_batch env b).1 ≡ false
    → Undeleted env (finish_batch env b).0
unfolding finish_batch finish
finish_batch-Undeleted env b f = (
  b.deletion.keys,
  b.shared.blobs,
  λ i. ((env.delete_objects b.deletion.keys b.shared.blobs).0, f i),
)

finish_batch-AllBusy :
    (env : Environment) (q : Pass) (cs : List (Text × ℕ))
    → All (λ (x : Text × ℕ). is_some (lookup x.0 q.shared.in_flight.claims) ≡ true) cs
    → AllBusy cs q (finish_batch env (emptied q)).0
unfolding finish_batch finish drop_all
finish_batch-AllBusy env q cs busy = (refl, refl, refl, busy)

module _ (env : Environment) (alone : (n : ℕ) (s : Shared) → env.others n s ≡ s) where
  -- What a batch leaves, with `cs` as its candidates.
  abbrev Stepped : ℕ → List (Text × ℕ) → Pass → Pass × Bool → Type 0
  Stepped total cs q next =
      IsExact total next.0
      × (next.1 ≡ false → Undeleted env next.0)
      × (AllBusy cs q next.0
          ⊎ ((length next.0.shared.db.objects < length q.shared.db.objects)
              × (next.0.settled ≡ true)))

  batch_step :
      (total low at : ℕ) (q : Pass) (c : Text × ℕ) (cs : List (Text × ℕ))
      → IsExact total q
      → ltb_ℤ (pos low) q.usage ≡ true
      → evictable q.shared.db batch_size at ≡ c ∷ cs
      → Stepped total (c ∷ cs) q (one_batch env low at (evictable q.shared.db batch_size at) q)
  unfolding one_batch
  batch_step total low at q c cs v over listed =
      let p0 = emptied q in
      let v0 : IsExact total p0 = record {
        well_formed = v.well_formed;
        counted = v.counted;
        conserved = v.conserved;
      } in
      let b = evict_batch env low at (c ∷ cs) p0 in
      let same = finish_batch-same env b in
      let fresh =
        subst (All (λ (x : Text × ℕ). (evict_object q.shared.db x.0 at).0 ≡ some x.1)) listed
          (evictable-evict_object q.shared.db batch_size at v.well_formed.unique).0 in
      subst (λ l. Stepped total (c ∷ cs) q (one_batch env low at l q)) (sym listed)
        (
          same-IsExact total b _ same.0 same.1 same.2
              (evict_batch-IsExact env alone total low at (c ∷ cs) p0 v0),
          finish_batch-Undeleted env b,
          elim (evict_batch-progress env alone total low at (c ∷ cs) p0 v0 over fresh) [
            | inl (e, busy) ↦ inl (
                subst (λ x. AllBusy (c ∷ cs) q (finish_batch env x).0) (sym e)
                  (finish_batch-AllBusy env q (c ∷ cs) busy))
            | inr (less, settled) ↦ inr (rw same.0 less, same.3 ∙ settled)
          ],
        )

  abbrev round_of : ℕ → Pass → Pass × Bool
  round_of low p =
      let q : Pass = record p { shared = wait env p.shared } in
      let at = env.unix_now p.shared.waits in
      one_batch env low at (evictable q.shared.db batch_size at) q

  -- A batch that settled nothing had candidates, all of them in flight.
  stopped :
      (total low : ℕ) (q next : Pass) (c : Text × ℕ) (cs : List (Text × ℕ)) (w : ℕ)
      → q.shared.waits ≡ w + 1
      → evictable q.shared.db batch_size (env.unix_now w) ≡ c ∷ cs
      → AllBusy (c ∷ cs) q next
        ⊎ ((length next.shared.db.objects < length q.shared.db.objects) × (next.settled ≡ true))
      → next.settled ≡ false
      → Reason env low next
  stopped total low q next c cs w waits listed (inl (_, db, same, busy)) f =
      in_flight w c cs (same ∙ waits)
        (ap (λ d. evictable d batch_size (env.unix_now w)) db ∙ listed) busy
  stopped total low q next c cs w waits listed (inr (_, settled)) f = absurd (not_both settled f)

  rounds-Ended :
      (fuel total low : ℕ) (p : Pass)
      → IsExact total p
      → length p.shared.db.objects < fuel
      → Ends env total low (rounds env fuel low p)
  unfolding rounds
  rounds-Ended zero total low p v h = absurd (omega arith)
  rounds-Ended (suc fuel) total low p v h =
      let q : Pass = record p { shared = wait env p.shared } in
      let w = p.shared.waits in
      let at = env.unix_now w in
      let db : q.shared.db ≡ p.shared.db = ap (λ (t : Shared). t.db) (alone w p.shared) in
      let v' = same-IsExact total p q db refl refl v in
      elim (Bool-cases (ltb_ℤ (pos low) p.usage)) [
        | inr f ↦ (
          done p,
          rw f refl,
          (v, reached (low_enough low _ (ap (ltb_ℤ (pos low)) (sym v.counted) ∙ f))),
        )
        | inl t ↦ elim (List-cases (evictable q.shared.db batch_size at)) [
          | inl e ↦ (
            done (exhausted q),
            rw t (turn-empty q (round_of low p) (rounds env fuel low (round_of low p).0) e),
            (
              record {
                well_formed = v'.well_formed;
                counted = v'.counted;
                conserved = v'.conserved;
              },
              no_candidate w refl (evictable-empty q.shared.db 499 at e) refl,
            ),
          )
          | inr (c, cs, e) ↦
              let next = round_of low p in
              let (exact, kept, progress) = batch_step total low at q c cs v' t e in
              rw t (
                turn-Ends env q next (rounds env fuel low next.0) e exact kept
                  (stopped total low q next.0 c cs w refl e progress)
                  (λ settled. elim progress [
                    | inl busy ↦ absurd (not_both settled busy.0)
                    | inr (less, _) ↦
                        rounds-Ended fuel total low next.0 exact
                          (fewer q.shared.db p.shared.db less db h)
                  ]))
        ]
      ]

  start-IsExact : (s : Shared) → IsWellFormed s.db → IsExact (sum_sizes s.db.objects) (start env s)
  unfolding reconcile_total_bytes
  start-IsExact s w = record {
    well_formed = record {
      unique = w.unique;
      refs_owned = w.refs_owned;
      pins_owned = w.pins_owned;
      counted = refl;
    };
    counted = refl;
    conserved = omega arith;
  }

  -- With nothing else running, one round for each row and one more are enough for a pass to end. It
  -- ends at or below the low watermark; with no row that could be evicted at its last reading of the
  -- clock and the alarm set; with candidates at that reading that were all in flight; or with a blob
  -- delete that S3 reported as failed. The usage that it counts is the sum of the sizes left, and with
  -- the bytes that it reports freed that is the sum there was.
  pub evict-Ended :
      (low : ℕ) (s : Shared)
      → IsWellFormed s.db
      → (e : Ending) × (evict env (suc (length s.db.objects)) low s ≡ some e)
        × Ended env (sum_sizes s.db.objects) low e
  unfolding evict reconcile_total_bytes
  evict-Ended low s w =
      let same : (wait env s).db ≡ s.db = ap (λ (t : Shared). t.db) (alone s.waits s) in
      let d = (wait env s).db in
      let v : IsExact (sum_sizes d.objects) (start env (wait env s)) =
        start-IsExact (wait env s) (rw same w) in
      rounds-Ended (suc (length s.db.objects)) (sum_sizes s.db.objects) low (start env (wait env s))
        (subst (λ (x : Database). IsExact (sum_sizes x.objects) (start env (wait env s))) same v)
        (lt_suc (ap (λ (x : Database). length x.objects) same))

  -- A tick with nothing else running leaves the database alone below the high watermark, and from the
  -- high watermark on its pass ends.
  pub tick-Ticked :
      (high low : ℕ) (s : Shared)
      → IsWellFormed s.db
      → Ticked env high low s (tick env (suc (length s.db.objects)) high low s)
  unfolding tick
  tick-Ticked high low s w =
      let t = wait env s in
      let same : t.db ≡ s.db = ap (λ (x : Shared). x.db) (alone s.waits s) in
      let counted : t.db.total_bytes ≡ pos (sum_sizes s.db.objects) =
        ap (λ (d : Database). d.total_bytes) same ∙ w.counted in
      let pass : Ends env (sum_sizes s.db.objects) low
          (evict env (suc (length s.db.objects)) low t) =
        subst
          (λ (d : Database).
            Ends env (sum_sizes d.objects) low (evict env (suc (length d.objects)) low t))
          same (evict-Ended low t (rw same w)) in
      elim (Bool-cases (ltb_ℤ t.db.total_bytes (pos high))) [
        | inl below ↦
            rw below (same, below_high _ high (ap (λ z. ltb_ℤ z (pos high)) (sym counted) ∙ below))
        | inr past ↦
            rw past (past_high _ high (ap (λ z. ltb_ℤ z (pos high)) (sym counted) ∙ past), pass)
      ]
    where
      below_high : (n high : ℕ) → ltb_ℤ (pos n) (pos high) ≡ true → n < high
      below_high n high e = ground arith

      past_high : (n high : ℕ) → ltb_ℤ (pos n) (pos high) ≡ false → high ≤ n
      past_high n high e = ground arith
