-- ===== src/Verify/Nar.antt =====
-- crates/garret-pusher/src/verify.rs: `VerifiedNar`, the stream that passes a NAR through its check. What
-- the check runs on is a thread of its own for a large NAR. A poll that finds nothing to do is the
-- same state; wake-ups are left out.
use garret.Common.{
  Bool, true, false, Option, none, some, List, [], ◌∷◌, ◌++◌, if◌then◌else◌, Text, length, ltb,
}
use garret.Common.Result.{Result, ok, err}
use garret.Storage.Stream.{Item, broken}
use garret.Verify.{Zstd, Checker, Fault, Checked, feed, finish_check, offload_depth}

pub data Outcome : Type 0 where
  accepted : Outcome
  refused : Fault → Outcome
  failed : Outcome

-- The thread of an offloaded check: still running, ended with a verdict, or gone without one.
pub data Thread (D : Type 0) : Type 0 where
  running : Checker D → Thread D
  ended : Checked → Thread D
  gone : Thread D

-- `VerifiedNar` with an offloaded check, the queue to it and what was passed on; `tx` is there while
-- `open`.
pub record Offload (D : Type 0) : Type 0 where
  pub inner : List Item
  pub pending : Option Text
  pub queue : List Text
  pub open_queue : Bool
  pub passed : List Item
  pub thread : Thread D
  pub outcome : Option Outcome

abbrev pub offloaded : {D : Type 0} → Checker D → List Item → Offload D
offloaded checker inner = record {
  inner = inner;
  pending = none;
  queue = [];
  open_queue = true;
  passed = [];
  thread = running checker;
  outcome = none;
}

-- `poll_verdict`: the queue is closed, and a verdict that is there becomes the outcome.
abbrev pub concluded_by : {D : Type 0} → Offload D → Thread D → Offload D
concluded_by s (running c) = s
concluded_by s (ended (ok tt)) = record s { outcome = some accepted }
concluded_by s (ended (err reason)) = record s {
  outcome = some (refused reason);
  passed = s.passed ++ err broken ∷ [];
}
concluded_by s gone = record s { outcome = some failed; passed = s.passed ++ err broken ∷ [] }

abbrev pub poll_verdict : {D : Type 0} → Offload D → Offload D
poll_verdict s = concluded_by (record s { open_queue = false }) s.thread

-- A pending chunk is queued before it is passed on, waits while the queue is full, and finds it closed
-- once the thread has ended.
abbrev pub offered : {D : Type 0} → Offload D → Text → Thread D → Offload D
offered s chunk (running c) =
    if ltb (length s.queue) offload_depth
    then record s {
      pending = none;
      queue = s.queue ++ chunk ∷ [];
      passed = s.passed ++ ok chunk ∷ [];
    }
    else record s { pending = some chunk }
offered s chunk (ended verdict) = poll_verdict (record s { pending = none })
offered s chunk gone = poll_verdict (record s { pending = none })

abbrev pub read_inner : {D : Type 0} → Offload D → List Item → Offload D
read_inner s [] = poll_verdict s
read_inner s (err e ∷ items) = record s { inner = items; passed = s.passed ++ err e ∷ [] }
read_inner s (ok chunk ∷ items) = offered (record s { inner = items }) chunk s.thread

abbrev pub poll_open : {D : Type 0} → Offload D → Option Text → Offload D
poll_open s none = read_inner s s.inner
poll_open s (some chunk) = offered s chunk s.thread

abbrev pub poll_running : {D : Type 0} → Offload D → Bool → Offload D
poll_running s true = poll_open s s.pending
poll_running s false = poll_verdict s

abbrev pub poll_outcome : {D : Type 0} → Offload D → Option Outcome → Offload D
poll_outcome s none = poll_running s s.open_queue
poll_outcome s (some o) = s

-- `poll_next` of an offloaded check.
unfoldable pub poll : {D : Type 0} → Offload D → Offload D
poll s = poll_outcome s s.outcome

-- What happens next: a poll of the request's task, a turn of the thread, or its panic.
pub data Event : Type 0 where
  poll_next turn_taken panicked : Event

module _ {D : Type 0} (zstd : Zstd D) where
  abbrev pub checked_end : Checked → List Item × Option Outcome
  checked_end (ok tt) = ([], some accepted)
  checked_end (err reason) = (err broken ∷ [], some (refused reason))

  -- The stream with the check inline, read to its end, and its outcome.
  unfoldable pub verified : Checker D → List Item → List Item × Option Outcome
  verified c [] = checked_end (finish_check zstd c)
  verified c (err e ∷ items) = let rest = verified c items in (err e ∷ rest.0, rest.1)
  verified c (ok chunk ∷ items) = elim (feed zstd c chunk) [
    | err reason ↦ (err broken ∷ [], some (refused reason))
    | ok next ↦ let rest = verified next items in (ok chunk ∷ rest.0, rest.1)
  ]

  -- A turn of the thread: the next chunk of the queue, or the end once the queue is closed and empty.
  -- A thread that ends drops its side of the queue.
  abbrev pub fed_turn : Offload D → List Text → Result (Checker D) Fault → Offload D
  fed_turn s queue (err reason) = record s { queue = []; thread = ended (err reason) }
  fed_turn s queue (ok next) = record s { queue = queue; thread = running next }

  abbrev pub turned : Offload D → Checker D → List Text → Offload D
  turned s c [] = if s.open_queue then s else record s { thread = ended (finish_check zstd c) }
  turned s c (chunk ∷ queue) = fed_turn s queue (feed zstd c chunk)

  abbrev pub turn_of : Offload D → Thread D → Offload D
  turn_of s (running c) = turned s c s.queue
  turn_of s (ended verdict) = s
  turn_of s gone = s

  unfoldable pub thread_turn : Offload D → Offload D
  thread_turn s = turn_of s s.thread

  abbrev pub gone_of : Offload D → Thread D → Offload D
  gone_of s (running c) = record s { queue = []; thread = gone }
  gone_of s (ended verdict) = s
  gone_of s gone = s

  abbrev pub happen : Event → Offload D → Offload D
  happen poll_next s = poll s
  happen turn_taken s = thread_turn s
  happen panicked s = gone_of s s.thread

  abbrev pub happen_all : List Event → Offload D → Offload D
  happen_all [] s = s
  happen_all (e ∷ events) s = happen_all events (happen e s)
