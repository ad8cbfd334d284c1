-- ===== src/Verify/Waiting.antt =====
-- crates/garret-pusher/src/verify.rs: how much is left to an offloaded check, and each turn of its thread.
use garret.Common.{
  ℕ, ◌+◌, ◌*◌, ◌≤◌, ◌<◌, ◌≡◌, ◌⊎◌, refl, sym, ap, subst, Bool, true, false, Option, none, some,
  List, [], ◌∷◌, Text, inl, inr, length, arith, if◌then◌else◌,
}
use garret.Common.Result.{Result, ok, err}
use garret.Verify.{Zstd, Checker, Fault, feed, finish_check}
use garret.Verify.Nar.{
  Outcome, Thread, running, ended, gone, Offload, turned, fed_turn, turn_of, thread_turn,
}

abbrev pub count : Option Text → ℕ
count none = 0
count (some chunk) = 2

abbrev shut_off : Bool → ℕ
shut_off true = 1
shut_off false = 0

abbrev at_work : {D : Type 0} → Thread D → ℕ
at_work (running c) = 1
at_work (ended verdict) = 0
at_work gone = 0

abbrev pub unsaid : Option Outcome → ℕ
unsaid none = 1
unsaid (some o) = 0

-- What is still to be done: each chunk is passed on and then checked, the queue is shut, the thread
-- ends and its verdict is taken.
abbrev pub left_to_do : {D : Type 0} → Offload D → ℕ
left_to_do s =
    2 * length s.inner
    + count s.pending
    + length s.queue
    + shut_off s.open_queue
    + at_work s.thread
    + unsaid s.outcome

module _ {D : Type 0} (zstd : Zstd D) where
  fed_turn-less :
      (s : Offload D) (c : Checker D) (chunk : Text) (queue : List Text)
      (r : Result (Checker D) Fault)
      → s.thread ≡ running c
      → s.queue ≡ chunk ∷ queue
      → left_to_do (fed_turn zstd s queue r) < left_to_do s
  fed_turn-less s c chunk queue (ok next) t q = omega (arith, ap at_work t, ap length q)
  fed_turn-less s c chunk queue (err reason) t q = omega (arith, ap at_work t, ap length q)

  shut-less :
      (s : Offload D) (c : Checker D) (shut : Bool)
      → s.thread ≡ running c
      → shut ≡ false
      → left_to_do (if shut then s else record s { thread = ended (finish_check zstd c) })
        < left_to_do s
  shut-less s c true t e = cc
  shut-less s c false t e = omega (arith, ap at_work t)

  shut-le :
      (s : Offload D) (c : Checker D) (shut : Bool)
      → s.thread ≡ running c
      → left_to_do (if shut then s else record s { thread = ended (finish_check zstd c) })
        ≤ left_to_do s
  shut-le s c true t = omega arith
  shut-le s c false t = omega (arith, ap at_work t)

  -- The thread has something to do.
  unfoldable pub Waited : Offload D → Type 0
  Waited s =
      (c : Checker D) × (s.thread ≡ running c) × ((1 ≤ length s.queue) ⊎ (s.open_queue ≡ false))

  turned-less :
      (s : Offload D) (c : Checker D) (queue : List Text)
      → s.thread ≡ running c
      → s.queue ≡ queue
      → (1 ≤ length queue) ⊎ (s.open_queue ≡ false)
      → left_to_do (turned zstd s c queue) < left_to_do s
  turned-less s c [] t q (inl b) = absurd (omega (arith, b))
  turned-less s c [] t q (inr shut) = shut-less s c s.open_queue t shut
  turned-less s c (chunk ∷ queue) t q w = fed_turn-less s c chunk queue (feed zstd c chunk) t q

  turned-le :
      (s : Offload D) (c : Checker D) (queue : List Text)
      → s.thread ≡ running c
      → s.queue ≡ queue
      → left_to_do (turned zstd s c queue) ≤ left_to_do s
  turned-le s c [] t q = shut-le s c s.open_queue t
  turned-le s c (chunk ∷ queue) t q =
      omega (arith, fed_turn-less s c chunk queue (feed zstd c chunk) t q)

  pub turn_of-le :
      (s : Offload D) (thread : Thread D)
      → s.thread ≡ thread
      → left_to_do (turn_of zstd s thread) ≤ left_to_do s
  turn_of-le s (running c) t = turned-le s c s.queue t refl
  turn_of-le s (ended verdict) t = omega arith
  turn_of-le s gone t = omega arith

  pub turn-less : (s : Offload D) → Waited s → left_to_do (thread_turn zstd s) < left_to_do s
  unfolding thread_turn Waited
  turn-less s (c, t, w) =
      subst (λ th. left_to_do (turn_of zstd s th) < left_to_do s) (sym t)
        (turned-less s c s.queue t refl w)
