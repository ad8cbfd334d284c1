-- ===== src/Db/Prune/Order.antt =====
-- crates/garret-server/src/db.rs: the order that the loop of `referrers_first` comes to.
use garret.Common.{
  ℕ, zero, suc, ◌+◌, ◌-◌, ◌≤◌, ◌<◌, ◌≡◌, refl, subst, ◌∙◌, List, [], ◌∷◌, ◌++◌, arith,
  if◌then◌else◌, All, length, length-append, ltb, ◌==◌,
}
use garret.Db.Prune.{nth, row, zeros, count, release, kahn, ready_from, order_of}
use garret.Db.Prune.Kahn.{
  times, sign, owed, IsSorted, Within, times-append, release-nth, release-times, counted,
  length-count, length-zeros, nth_out, owed-append, owed-row, owed_none,
}
use garret.Db.Prune.Sums.{sum, sum_add, length-sum, sum_mono, sum_ones, sum_one, sum-le, below}

-- The loop's invariant.
record IsRun (refs : List (List ℕ)) (n : ℕ) (order : List ℕ) (s : List ℕ × List ℕ) : Type 0 where
  pub counts : (j : ℕ) → nth s.0 j ≡ owed 0 order j refs
  pub once : (j : ℕ) → times j order + times j s.1 + sign (nth s.0 j) ≡ (if ltb j n then 1 else 0)
  pub sorted : IsSorted refs [] order

IsSorted-append :
    (refs : List (List ℕ)) (before order : List ℕ) (i : ℕ)
    → IsSorted refs before order
    → ((k : ℕ) → 1 ≤ times i (row refs k) → 1 ≤ times k before + times k order)
    → IsSorted refs before (order ++ i ∷ [])
IsSorted-append refs before [] i w h = (λ k m. omega (arith, h k m), tt)
IsSorted-append refs before (x ∷ order) i w h = (
  w.0,
  IsSorted-append refs (before ++ x ∷ []) order i w.1
      (λ k m. omega (arith, h k m, times-append k before (x ∷ []))),
)

module _ (refs : List (List ℕ)) (n : ℕ) where
  turn-IsRun :
      (referrers ready order : List ℕ) (i : ℕ)
      → IsRun refs n order (referrers, i ∷ ready)
      → IsRun refs n (order ++ i ∷ []) (release (row refs i) (referrers, ready))
  turn-IsRun referrers ready order i w =
      let fresh : times i order ≡ 0 = ground (arith, w.once i) in
      let free : nth referrers i ≡ 0 = ground (arith, w.once i) in
      record {
        counts = λ j. omega (
          arith,
          release-nth j (row refs i) (referrers, ready),
          w.counts j,
          owed-append i 0 i j order refs (omega arith) fresh,
        );
        once = λ j. omega (
          arith,
          release-times j (row refs i) (referrers, ready)
              (λ k. omega (arith, w.counts k, owed-row i 0 i k order refs (omega arith) fresh)),
          w.once j,
          times-append j order (i ∷ []),
        );
        sorted =
            IsSorted-append refs [] order i w.sorted (λ k m.
              ground (arith, m, free, w.counts i, owed-row k 0 k i order refs (omega arith)));
      }

  spent :
      (order : List ℕ) (s : List ℕ × List ℕ) → IsRun refs n order s → length order + length s.1 ≤ n
  spent order s w = omega (
    arith,
    length-sum n order (below n order (λ j b. ground (arith, b, w.once j))),
    length-sum n s.1 (below n s.1 (λ j b. ground (arith, b, w.once j))),
    sum_add n (λ j. times j order) (λ j. times j s.1),
    sum_mono n (λ j. times j order + times j s.1) (λ j. 1) (λ j. ground (arith, w.once j)),
    sum_one n,
  )

  kahn-IsRun :
      (fuel : ℕ) (s : List ℕ × List ℕ) (order : List ℕ)
      → n ≤ length order + fuel
      → IsRun refs n order s
      → (referrers : List ℕ) × IsRun refs n (kahn fuel refs s order) (referrers, [])
  unfolding kahn
  kahn-IsRun zero (referrers, []) order f w = (referrers, w)
  kahn-IsRun zero (referrers, i ∷ ready) order f w =
      absurd (omega (arith, f, spent order (referrers, i ∷ ready) w))
  kahn-IsRun (suc fuel) (referrers, []) order f w = (referrers, w)
  kahn-IsRun (suc fuel) (referrers, i ∷ ready) order f w =
      kahn-IsRun fuel (release (row refs i) (referrers, ready)) (order ++ i ∷ [])
        (omega (arith, f, length-append order (i ∷ []))) (turn-IsRun referrers ready order i w)

ready_from-before :
    (j i : ℕ) (ns found : List ℕ) → j < i → times j (ready_from i ns found) ≡ times j found
unfolding ready_from
ready_from-before j i [] found b = refl
ready_from-before j i (x ∷ ns) found b =
    ready_from-before j (suc i) ns (if x == 0 then i ∷ found else found) (omega (arith, b))
    ∙ ground (arith, b)

-- The indices without an edge to them are ready at the start.
ready_from-times :
    (j i d : ℕ) (ns found : List ℕ)
    → j ≡ i + d
    → times j (ready_from i ns found)
      ≡ times j found + (if ltb d (length ns) then 1 - sign (nth ns d) else 0)
unfolding ready_from
ready_from-times j i d [] found e = ground arith
ready_from-times j i zero (x ∷ ns) found e =
    ready_from-before j (suc i) ns (if x == 0 then i ∷ found else found) (omega (arith, e))
    ∙ ground (arith, e)
ready_from-times j i (suc d) (x ∷ ns) found e =
    ready_from-times j (suc i) d ns (if x == 0 then i ∷ found else found) (omega (arith, e))
    ∙ ground (arith, e)

pub row_inside : (refs : List (List ℕ)) (d j : ℕ) → 1 ≤ times j (row refs d) → d < length refs
row_inside [] d j m = absurd (omega (arith, m))
row_inside (js ∷ refs) zero j m = omega arith
row_inside (js ∷ refs) (suc d) j m = omega (arith, row_inside refs d j m)

module _ (refs : List (List ℕ)) (n : ℕ) (within : Within n refs) where
  start : List ℕ
  start = count refs (zeros n)

  start-IsRun : IsRun refs n [] (start, ready_from 0 start [])
  unfolding start
  start-IsRun = record {
    counts = λ j. counted n j refs within;
    once = λ j. ground (
      arith,
      ready_from-times j 0 j start [] (omega arith),
      length-count refs (zeros n),
      length-zeros n,
      nth_out j start,
    );
    sorted = tt;
  }

  order_of-IsRun : (referrers : List ℕ) × IsRun refs n (order_of n refs) (referrers, [])
  unfolding order_of start
  order_of-IsRun = kahn-IsRun refs n n (start, ready_from 0 start []) [] (omega arith) start-IsRun

  -- Every index comes after those with an edge to it.
  pub order_of-IsSorted : IsSorted refs [] (order_of n refs)
  order_of-IsSorted = order_of-IsRun.1.sorted

  -- An order of the right length has every index once, and nothing else.
  pub order_of-times :
      length (order_of n refs) ≡ n
      → (j : ℕ) → times j (order_of n refs) ≡ (if ltb j n then 1 else 0)
  order_of-times full j =
      let (referrers, w) = order_of-IsRun in
      let order = order_of n refs in
      let inside : All (λ x. x < n) order = below n order (λ k b. ground (arith, b, w.once k)) in
      let left : sum n (λ k. times k order) + sum n (λ k. sign (nth referrers k)) ≤ n = omega (
        arith,
        sum_add n (λ k. times k order) (λ k. sign (nth referrers k)),
        sum_mono n (λ k. times k order + sign (nth referrers k)) (λ k. 1)
            (λ k. ground (arith, w.once k)),
        sum_one n,
      ) in
      ground
        (arith, w.once j, full, length-sum n order inside, sum-le n j (λ k. sign (nth referrers k)))

  -- With every edge from a lower rank to a higher one, an index is in the order with those below it.
  ranked :
      (rank : ℕ → ℕ)
      → ((k j : ℕ) → 1 ≤ times j (row refs k) → rank k < rank j)
      → length refs ≡ n
      → (bound j : ℕ) → rank j < bound
      → j < n
      → times j (order_of n refs) ≡ 1
  ranked rank up all zero j b l = absurd (omega (arith, b))
  ranked rank up all (suc bound) j b l =
      let (referrers, w) = order_of-IsRun in
      let free : owed 0 (order_of n refs) j refs ≡ 0 =
        owed_none 0 j (order_of n refs) refs (λ i d e m.
          let same : d ≡ i = omega (arith, e) in
          let inside : d < n = omega (arith, row_inside refs d j m, all) in
          subst (λ x. 1 ≤ times x (order_of n refs)) same
            (omega (arith, ranked rank up all bound d (omega (arith, up d j m, b)) inside))) in
      ground (arith, w.once j, w.counts j, free, l)

  -- Without a cycle, every index is in the order.
  pub order_of-acyclic :
      (rank : ℕ → ℕ)
      → ((k j : ℕ) → 1 ≤ times j (row refs k) → rank k < rank j)
      → length refs ≡ n
      → length (order_of n refs) ≡ n
  order_of-acyclic rank up all =
      let (referrers, w) = order_of-IsRun in
      let order = order_of n refs in
      length-sum n order (below n order (λ k b. ground (arith, b, w.once k)))
      ∙ sum_ones n (λ j. times j order) (λ j l. ranked rank up all (suc (rank j)) j (omega arith) l)
