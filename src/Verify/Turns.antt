-- ===== src/Verify/Turns.antt =====
-- crates/garret-pusher/src/verify.rs: the thread of an offloaded check, in agreement with the inline one.
use garret.Common.{
  append_assoc, append_nil, ◌≡◌, ◌⊎◌, refl, sym, ap, subst, ◌∙◌, false, if◌then◌else◌, Bool-cases,
  Option, none, some, List, [], ◌∷◌, ◌++◌, Text, inl, inr,
}
use garret.Common.Result.{Result, ok, err, ◌>>=◌}
use garret.Storage.Stream.{Item}
use garret.Verify.{Zstd, Checker, Fault, feed, finish_check}
use garret.Verify.Nar.{
  failed, Thread, running, ended, gone, Offload, offloaded, turned, fed_turn, turn_of, gone_of,
}
use garret.Verify.Inline.{chunks, chunks-append, outcome_of, feeds, feeds-append, verdict_on}

abbrev pub held : Option Text → List Item
held none = []
held (some chunk) = ok chunk ∷ []

pub both : {A B : Type 0} {p : A × B} {a : A} {b : B} → p.0 ≡ a → p.1 ≡ b → p ≡ (a, b)
both e f = cc

module _ {D : Type 0} (zstd : Zstd D) (start : Checker D) (items : List Item) where
  -- By how far the thread is: while it runs nothing has been lost, and it has been fed what was passed
  -- on but for the queue; once it has ended, its verdict is that on the whole stream.
  abbrev pub Agrees : Offload D → Thread D → Type 0
  Agrees s (running c) =
      (s.outcome ≡ none)
      × (s.passed ++ (held s.pending ++ s.inner) ≡ items)
      × ((done : List Text) × (feeds zstd start done ≡ ok c) × (done ++ s.queue ≡ chunks s.passed))
      × (s.open_queue ≡ false → (s.pending ≡ none) × (s.inner ≡ []))
  Agrees s (ended verdict) =
      (verdict ≡ verdict_on zstd start (chunks items))
      × (verdict ≡ ok tt → (s.passed ≡ items) × (s.pending ≡ none) × (s.inner ≡ []))
      × ((s.outcome ≡ none) ⊎ (s.outcome ≡ some (outcome_of verdict)))
  Agrees s gone = (s.outcome ≡ none) ⊎ (s.outcome ≡ some failed)

  unfoldable pub Agreed : Offload D → Type 0
  Agreed s = Agrees s s.thread

  pub offloaded-Agreed : Agreed (offloaded start items)
  unfolding Agreed feeds
  offloaded-Agreed = (refl, refl, ([], refl, refl), λ e. cc)

  -- A chunk that is refused settles the verdict on whatever follows it.
  early :
      (fed : List Text) (chunk : Text) (more : List Text) {c : Checker D} {reason : Fault}
      → feeds zstd start fed ≡ ok c
      → feed zstd c chunk ≡ err reason
      → verdict_on zstd start (fed ++ chunk ∷ more) ≡ err reason
  unfolding feeds
  early fed chunk more {c} {reason} f e =
      ap (λ r. r >>= finish_check zstd)
        (feeds-append zstd start fed (chunk ∷ more)
          ∙ ap (λ r. r >>= λ n. feeds zstd n (chunk ∷ more)) f
          ∙ ap (λ r. r >>= λ n. feeds zstd n more) e)

  fed_on :
      (fed : List Text) (chunk : Text) {c next : Checker D}
      → feeds zstd start fed ≡ ok c
      → feed zstd c chunk ≡ ok next
      → feeds zstd start (fed ++ chunk ∷ []) ≡ ok next
  unfolding feeds
  fed_on fed chunk f e =
      feeds-append zstd start fed (chunk ∷ [])
      ∙ ap (λ r. r >>= λ n. feeds zstd n (chunk ∷ [])) f
      ∙ ap (λ r. r >>= λ n. ok n) e

  fed_turn-Agreed :
      (s : Offload D) (c : Checker D) (chunk : Text) (queue : List Text)
      (r : Result (Checker D) Fault)
      → feed zstd c chunk ≡ r
      → s.queue ≡ chunk ∷ queue
      → Agrees s (running c)
      → Agreed (fed_turn zstd s queue r)
  unfolding Agreed
  fed_turn-Agreed s c chunk queue (ok next) e q (o, whole, (fed, f, w), shut) = (
    o,
    whole,
    (
      fed ++ chunk ∷ [],
      fed_on fed chunk f e,
      append_assoc fed (chunk ∷ []) queue ∙ ap (λ r. fed ++ r) (sym q) ∙ w,
    ),
    shut,
  )
  fed_turn-Agreed s c chunk queue (err reason) e q (o, whole, (fed, f, w), shut) =
      let behind = chunks (held s.pending ++ s.inner) in
      let all : fed ++ (chunk ∷ queue ++ behind) ≡ chunks items =
        sym (append_assoc fed (chunk ∷ queue) behind)
        ∙ ap (λ r. (fed ++ r) ++ behind) (sym q)
        ∙ ap (λ r. r ++ behind) w
        ∙ sym (chunks-append s.passed (held s.pending ++ s.inner))
        ∙ ap chunks whole in
      (
        sym (early fed chunk (queue ++ behind) f e) ∙ ap (verdict_on zstd start) all,
        λ accepts. cc,
        inl o,
      )

  -- The thread's turn.
  turned-Agreed :
      (s : Offload D) (c : Checker D) (queue : List Text)
      → s.thread ≡ running c
      → s.queue ≡ queue
      → Agrees s (running c)
      → Agreed (turned zstd s c queue)
  unfolding Agreed
  turned-Agreed s c (chunk ∷ queue) t q a = fed_turn-Agreed s c chunk queue _ refl q a
  turned-Agreed s c [] t q (o, whole, (fed, f, w), shut) = elim (Bool-cases s.open_queue) [
    | inl there ↦
        subst (λ b. Agreed (if b then s else record s { thread = ended (finish_check zstd c) }))
          (sym there) (subst (Agrees s) (sym t) (o, whole, (fed, f, w), shut))
    | inr shut_now ↦
        let (no_pending, no_inner) = shut shut_now in
        let passed : s.passed ≡ items =
          sym (append_nil s.passed)
          ∙ ap (λ p. s.passed ++ (held p ++ [])) (sym no_pending)
          ∙ ap (λ i. s.passed ++ (held s.pending ++ i)) (sym no_inner)
          ∙ whole in
        let all : fed ≡ chunks items =
          sym (append_nil fed) ∙ ap (λ r. fed ++ r) (sym q) ∙ w ∙ ap chunks passed in
        subst (λ b. Agreed (if b then s else record s { thread = ended (finish_check zstd c) }))
          (sym shut_now)
          (
            ap (λ r. r >>= finish_check zstd) (sym f) ∙ ap (verdict_on zstd start) all,
            λ accepts. (passed, no_pending, no_inner),
            inl o,
          )
  ]

  pub turn_of-Agreed :
      (s : Offload D) (thread : Thread D)
      → s.thread ≡ thread
      → Agreed s
      → Agreed (turn_of zstd s thread)
  unfolding Agreed
  turn_of-Agreed s (running c) t a = turned-Agreed s c s.queue t refl (subst (Agrees s) t a)
  turn_of-Agreed s (ended verdict) t a = a
  turn_of-Agreed s gone t a = a

  pub gone_of-Agreed :
      (s : Offload D) (thread : Thread D)
      → s.thread ≡ thread
      → Agreed s
      → Agreed (gone_of zstd s thread)
  unfolding Agreed
  gone_of-Agreed s (running c) t a = inl (subst (Agrees s) t a).0
  gone_of-Agreed s (ended verdict) t a = a
  gone_of-Agreed s gone t a = a
