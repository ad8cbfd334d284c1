-- ===== src/Verify/Schedules.antt =====
-- crates/garret-pusher/src/verify.rs: the offloaded check against the inline one, whatever the order in
-- which the request's task and the check's thread get on.
use garret.Common.{
  some-injective, ◌≡◌, refl, sym, ap, subst, ◌∙◌, Bool, true, false, Option, none, some, List, [],
  ◌∷◌, ◌++◌, Text, inl, inr,
}
use garret.Common.Result.{ok, err}
use garret.Storage.Stream.{Item}
use garret.Verify.{Zstd, Checker, Checked}
use garret.Verify.Nar.{
  Outcome, accepted, refused, failed, Thread, running, ended, gone, Offload, offloaded,
  concluded_by, poll_open, poll_running, poll_outcome, poll, verified, thread_turn, Event,
  poll_next, turn_taken, panicked, happen, happen_all,
}
use garret.Verify.Inline.{chunks, outcome_of, verdict_on, verified-outcome, verified-passes}
use garret.Verify.Turns.{
  held, both, Agrees, Agreed, offloaded-Agreed, turn_of-Agreed, gone_of-Agreed,
}
use garret.Verify.Polls.{concluded_by-Agreed, offered-Agreed, read_inner-Agreed}

module _ {D : Type 0} (zstd : Zstd D) (start : Checker D) (items : List Item) where
  again :
      (s : Offload D) (chunk : Text) (thread : Thread D)
      → Agrees zstd start items s thread
      → s.pending ≡ some chunk
      → Agrees zstd start items (record s { pending = some chunk }) thread
  again s chunk (running c) (o, whole, fed, shut) p = (
    o,
    ap (λ q. s.passed ++ (held q ++ s.inner)) (sym p) ∙ whole,
    fed,
    λ shut_now. let (pending, inner) = shut shut_now in (sym p ∙ pending, inner),
  )
  again s chunk (ended verdict) (v, passed, o) p =
      (v, λ accepts. let (all, pending, inner) = passed accepts in (all, sym p ∙ pending, inner), o)
  again s chunk gone o p = o

  poll_open-Agreed :
      (s : Offload D) (pending : Option Text)
      → Agreed zstd start items s
      → s.pending ≡ pending
      → s.outcome ≡ none
      → s.open_queue ≡ true
      → Agreed zstd start items (poll_open s pending)
  unfolding Agreed
  poll_open-Agreed s none a p n there =
      read_inner-Agreed zstd start items s s.inner a refl p n there
  poll_open-Agreed s (some chunk) a p n there =
      offered-Agreed zstd start items s chunk s.thread refl (again s chunk s.thread a p) n there

  poll_shut-Agreed :
      (s : Offload D) (thread : Thread D)
      → s.thread ≡ thread
      → Agrees zstd start items s thread
      → s.outcome ≡ none
      → s.open_queue ≡ false
      → Agreed zstd start items (concluded_by (record s { open_queue = false }) thread)
  poll_shut-Agreed s (running c) t a n shut =
      concluded_by-Agreed zstd start items s (running c) t a n (inl (a.3 shut))
  poll_shut-Agreed s (ended v) t a n shut =
      concluded_by-Agreed zstd start items s (ended v) t a n (inr λ c e. cc)
  poll_shut-Agreed s gone t a n shut =
      concluded_by-Agreed zstd start items s gone t a n (inr λ c e. cc)

  poll_running-Agreed :
      (s : Offload D) (is_open : Bool)
      → Agreed zstd start items s
      → s.outcome ≡ none
      → s.open_queue ≡ is_open
      → Agreed zstd start items (poll_running s is_open)
  unfolding Agreed
  poll_running-Agreed s true a n o = poll_open-Agreed s s.pending a refl n o
  poll_running-Agreed s false a n o = poll_shut-Agreed s s.thread refl a n o

  poll_outcome-Agreed :
      (s : Offload D) (outcome : Option Outcome)
      → Agreed zstd start items s
      → s.outcome ≡ outcome
      → Agreed zstd start items (poll_outcome s outcome)
  poll_outcome-Agreed s none a o = poll_running-Agreed s s.open_queue a o refl
  poll_outcome-Agreed s (some x) a o = a

  happen-Agreed :
      (event : Event) (s : Offload D)
      → Agreed zstd start items s
      → Agreed zstd start items (happen zstd event s)
  unfolding poll thread_turn
  happen-Agreed poll_next s a = poll_outcome-Agreed s s.outcome a refl
  happen-Agreed turn_taken s a = turn_of-Agreed zstd start items s s.thread refl a
  happen-Agreed panicked s a = gone_of-Agreed zstd start items s s.thread refl a

  happen_all-Agreed :
      (events : List Event) (s : Offload D)
      → Agreed zstd start items s
      → Agreed zstd start items (happen_all zstd events s)
  happen_all-Agreed [] s a = a
  happen_all-Agreed (e ∷ events) s a =
      happen_all-Agreed events (happen zstd e s) (happen-Agreed e s a)

  -- What an outcome says of the inline check.
  abbrev pub IsInline : Offload D → Outcome → Type 0
  IsInline s accepted = verified zstd start items ≡ (s.passed, some accepted)
  IsInline s (refused reason) = (verified zstd start items).1 ≡ some (refused reason)
  IsInline s failed = Unit

  ended-IsInline :
      (s : Offload D) (verdict : Checked)
      → verdict ≡ verdict_on zstd start (chunks items)
      → (verdict ≡ ok tt → s.passed ≡ items)
      → IsInline s (outcome_of verdict)
  ended-IsInline s (ok done) v passed =
      both (verified-passes zstd start items (sym v) ∙ sym (passed refl))
        (verified-outcome zstd start items ∙ ap (λ r. some (outcome_of r)) (sym v))
  ended-IsInline s (err reason) v passed =
      verified-outcome zstd start items ∙ ap (λ r. some (outcome_of r)) (sym v)

  agreed-IsInline :
      (s : Offload D) (thread : Thread D) (o : Outcome)
      → Agrees zstd start items s thread
      → s.outcome ≡ some o
      → IsInline s o
  agreed-IsInline s (running c) o (n, rest, fed, shut) e = cc
  agreed-IsInline s (ended verdict) o (v, passed, inl n) e = cc
  agreed-IsInline s (ended verdict) o (v, passed, inr y) e =
      subst (IsInline s) (some-injective (sym y ∙ e))
        (ended-IsInline s verdict v (λ k. (passed k).0))
  agreed-IsInline s gone o (inl n) e = cc
  agreed-IsInline s gone o (inr y) e = subst (IsInline s) (some-injective (sym y ∙ e)) tt

-- Whatever the order in which the request's task polls and the thread works, an offloaded check that
-- comes to an outcome has the one that the check has inline: when it accepts, what was passed on is
-- what the inline check passes on, and when it refuses it does so for the same reason. Where the
-- thread has failed nothing is said.
pub happen_all-IsInline :
    {D : Type 0} (zstd : Zstd D) (start : Checker D) (items : List Item) (events : List Event)
    (o : Outcome)
    → (happen_all zstd events (offloaded start items)).outcome ≡ some o
    → IsInline zstd start items (happen_all zstd events (offloaded start items)) o
unfolding Agreed
happen_all-IsInline zstd start items events o e =
    let s = happen_all zstd events (offloaded start items) in
    agreed-IsInline zstd start items s s.thread o
      (happen_all-Agreed zstd start items events (offloaded start items)
        (offloaded-Agreed zstd start items))
      e
