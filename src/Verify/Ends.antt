-- ===== src/Verify/Ends.antt =====
-- crates/garret-pusher/src/verify.rs: the task and the thread of an offloaded check get each other on.
use garret.Common.{
  ℕ, zero, suc, ◌≤◌, ◌<◌, ◌≡◌, ◌⊎◌, refl, sym, ap, subst, ◌∙◌, Bool, true, false, Bool-cases,
  Option-cases, Option, none, some, List, [], ◌∷◌, ◌++◌, Text, inl, inr, length, length-append, ltb,
  arith, if◌then◌else◌,
}
use garret.Common.Result.{Result, ok, err}
use garret.Storage.Stream.{Item}
use garret.Verify.{Zstd, Checker, Fault, feed, offload_depth}
use garret.Verify.Nar.{
  Outcome, Thread, running, ended, gone, Offload, concluded_by, poll_verdict, offered, read_inner,
  poll_open, poll_running, poll_outcome, poll, turned, fed_turn, turn_of, thread_turn,
}
use garret.Verify.Waiting.{count, unsaid, left_to_do, Waited, turn_of-le, turn-less}

module _ {D : Type 0} (zstd : Zstd D) where
  -- A poll does something, or the thread has something to do.
  Moves : ℕ → Offload D → Type 0
  Moves before s = (left_to_do s < before) ⊎ ((left_to_do s ≤ before) × Waited zstd s)

  concluded_by-Moves :
      (s : Offload D) (thread : Thread D)
      → s.thread ≡ thread
      → s.outcome ≡ none
      → Moves (left_to_do s) (concluded_by (record s { open_queue = false }) thread)
  unfolding Moves Waited
  concluded_by-Moves s (running c) t n = inr (omega arith, (c, t, inr refl))
  concluded_by-Moves s (ended (ok done)) t n = inl (omega (arith, ap unsaid n))
  concluded_by-Moves s (ended (err reason)) t n = inl (omega (arith, ap unsaid n))
  concluded_by-Moves s gone t n = inl (omega (arith, ap unsaid n))

  Moves-le : (a b : ℕ) (s : Offload D) → a ≤ b → Moves a s → Moves b s
  unfolding Moves
  Moves-le a b s le (inl l) = inl (omega (arith, l, le))
  Moves-le a b s le (inr (l, w)) = inr (omega (arith, l, le), w)

  -- A chunk for which the queue is closed.
  closed-Moves :
      (s : Offload D) (chunk : Text)
      → s.outcome ≡ none
      → Moves
          (left_to_do (record s { pending = some chunk }))
          (poll_verdict (record s { pending = none }))
  closed-Moves s chunk n =
      Moves-le (left_to_do (record s { pending = none }))
        (left_to_do (record s { pending = some chunk }))
        (poll_verdict (record s { pending = none })) (omega arith)
        (concluded_by-Moves (record s { pending = none }) s.thread refl n)

  offered-Moves :
      (s : Offload D) (chunk : Text) (thread : Thread D)
      → s.thread ≡ thread
      → s.outcome ≡ none
      → Moves (left_to_do (record s { pending = some chunk })) (offered s chunk thread)
  unfolding Moves Waited
  offered-Moves s chunk (running c) t n =
      let waits : Offload D = record s { pending = some chunk } in
      let queued : Offload D = record s {
        pending = none;
        queue = s.queue ++ chunk ∷ [];
        passed = s.passed ++ ok chunk ∷ [];
      } in
      elim (Bool-cases (ltb (length s.queue) offload_depth)) [
        | inl room ↦
            subst (λ b. Moves (left_to_do waits) (if b then queued else waits)) (sym room)
              (inl (omega (arith, length-append s.queue (chunk ∷ []))))
        | inr full ↦
            subst (λ b. Moves (left_to_do waits) (if b then queued else waits)) (sym full)
              (inr (omega arith, (c, t, inl (ground (arith, full)))))
      ]
  offered-Moves s chunk (ended verdict) t n = closed-Moves s chunk n
  offered-Moves s chunk gone t n = closed-Moves s chunk n

  read_inner-Moves :
      (s : Offload D) (inner : List Item)
      → s.inner ≡ inner
      → s.pending ≡ none
      → s.outcome ≡ none
      → Moves (left_to_do s) (read_inner s inner)
  unfolding Moves
  read_inner-Moves s [] i p n = concluded_by-Moves s s.thread refl n
  read_inner-Moves s (err e ∷ rest) i p n = inl (omega (arith, ap length i))
  read_inner-Moves s (ok chunk ∷ rest) i p n =
      Moves-le (left_to_do (record s { inner = rest; pending = some chunk })) (left_to_do s)
        (offered (record s { inner = rest }) chunk s.thread)
        (omega (arith, ap length i, ap count p))
        (offered-Moves (record s { inner = rest }) chunk s.thread refl n)

  poll_open-Moves :
      (s : Offload D) (pending : Option Text)
      → s.pending ≡ pending
      → s.outcome ≡ none
      → Moves (left_to_do s) (poll_open s pending)
  poll_open-Moves s none p n = read_inner-Moves s s.inner refl p n
  poll_open-Moves s (some chunk) p n =
      Moves-le (left_to_do (record s { pending = some chunk })) (left_to_do s)
        (offered s chunk s.thread) (omega (arith, ap count p))
        (offered-Moves s chunk s.thread refl n)

  poll_running-Moves :
      (s : Offload D) (is_open : Bool)
      → s.outcome ≡ none
      → Moves (left_to_do s) (poll_running s is_open)
  poll_running-Moves s true n = poll_open-Moves s s.pending refl n
  poll_running-Moves s false n = concluded_by-Moves s s.thread refl n

  poll-Moves : (s : Offload D) → s.outcome ≡ none → Moves (left_to_do s) (poll s)
  unfolding poll
  poll-Moves s n =
      subst (λ o. Moves (left_to_do s) (poll_outcome s o)) (sym n)
        (poll_running-Moves s s.open_queue n)

  round-less :
      (s : Offload D) → s.outcome ≡ none → left_to_do (thread_turn zstd (poll s)) < left_to_do s
  unfolding Moves thread_turn
  round-less s n = elim (poll-Moves s n) [
    | inl l ↦ omega (arith, l, turn_of-le zstd (poll s) (poll s).thread refl)
    | inr (l, w) ↦ omega (arith, l, turn-less zstd (poll s) w)
  ]

  -- A poll and a turn of the thread, so many times.
  abbrev pub polls_and_turns : ℕ → Offload D → Offload D
  polls_and_turns zero s = s
  polls_and_turns (suc n) s = polls_and_turns n (thread_turn zstd (poll s))

  turned-outcome :
      (s : Offload D) (c : Checker D) (queue : List Text)
      → (turned zstd s c queue).outcome ≡ s.outcome
  turned-outcome s c [] = elim (Bool-cases s.open_queue) [ inl e ↦ rw e refl | inr e ↦ rw e refl ]
  turned-outcome s c (chunk ∷ queue) = fed_outcome (feed zstd c chunk)
    where
      fed_outcome : (r : Result (Checker D) Fault) → (fed_turn zstd s queue r).outcome ≡ s.outcome
      fed_outcome (ok next) = refl
      fed_outcome (err reason) = refl

  turn-outcome : (s : Offload D) (thread : Thread D) → (turn_of zstd s thread).outcome ≡ s.outcome
  turn-outcome s (running c) = turned-outcome s c s.queue
  turn-outcome s (ended verdict) = refl
  turn-outcome s gone = refl

  said-stays :
      (n : ℕ) (s : Offload D) (o : Outcome)
      → s.outcome ≡ some o
      → (polls_and_turns n s).outcome ≡ some o
  unfolding poll thread_turn
  said-stays zero s o e = e
  said-stays (suc n) s o e =
      said-stays n (thread_turn zstd (poll s)) o
        (turn-outcome (poll s) (poll s).thread ∙ ap (λ p. (poll_outcome s p).outcome) e ∙ e)

  polls_and_turns-said :
      (n : ℕ) (s : Offload D)
      → left_to_do s ≤ n
      → (o : Outcome) × ((polls_and_turns n s).outcome ≡ some o)
  polls_and_turns-said zero s b = elim (Option-cases s.outcome) [
    | inr (o, e) ↦ (o, e)
    | inl e ↦ absurd (omega (arith, ap unsaid e, b))
  ]
  polls_and_turns-said (suc n) s b = elim (Option-cases s.outcome) [
    | inr (o, e) ↦ (o, said-stays (suc n) s o e)
    | inl e ↦ polls_and_turns-said n (thread_turn zstd (poll s)) (omega (arith, round-less s e, b))
  ]

-- From wherever an offloaded check is, as many polls with a turn of its thread after each as there is
-- left to do bring it to an outcome: the task and the thread never wait for each other for good.
pub offload-answers :
    {D : Type 0} (zstd : Zstd D) (s : Offload D)
    → (o : Outcome) × ((polls_and_turns zstd (left_to_do s) s).outcome ≡ some o)
offload-answers zstd s = polls_and_turns-said zstd (left_to_do s) s (omega arith)
