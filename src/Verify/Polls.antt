-- ===== src/Verify/Polls.antt =====
-- crates/garret-pusher/src/verify.rs: one poll of an offloaded check, in agreement with the inline one.
use garret.Common.{
  append_assoc, append_nil, ◌≡◌, ◌≢◌, ◌⊎◌, refl, sym, ap, subst, ◌∙◌, true, false, if◌then◌else◌,
  Bool-cases, none, some, List, [], ◌∷◌, ◌++◌, Text, inl, inr, length, ltb,
}
use garret.Common.Result.{ok, err}
use garret.Storage.Stream.{Item, BodyError, broken}
use garret.Verify.{Zstd, Checker, offload_depth}
use garret.Verify.Nar.{
  accepted, refused, failed, Thread, running, ended, gone, Offload, concluded_by, poll_verdict,
  offered, read_inner,
}
use garret.Verify.Inline.{chunks, chunks-append}
use garret.Verify.Turns.{held, Agrees, Agreed}

module _ {D : Type 0} (zstd : Zstd D) (start : Checker D) (items : List Item) where
  -- The task's poll.
  pub concluded_by-Agreed :
      (s : Offload D) (thread : Thread D)
      → s.thread ≡ thread
      → Agrees zstd start items s thread
      → s.outcome ≡ none
      → ((s.pending ≡ none) × (s.inner ≡ [])) ⊎ ((c : Checker D) → thread ≢ running c)
      → Agreed zstd start items (concluded_by (record s { open_queue = false }) thread)
  unfolding Agreed
  concluded_by-Agreed s (running c) t (o, whole, fed, shut) n at_end =
      subst (Agrees zstd start items (record s { open_queue = false })) (sym t)
        (o, whole, fed, λ now. elim at_end [ inl e ↦ e | inr never ↦ absurd (never c refl) ])
  concluded_by-Agreed s (ended (ok tt)) t (v, passed, o) n at_end =
      subst (Agrees zstd start items (record s { open_queue = false; outcome = some accepted }))
        (sym t) (v, passed, inr refl)
  concluded_by-Agreed s (ended (err reason)) t (v, passed, o) n at_end =
      subst
        (Agrees zstd start items (record s {
          open_queue = false;
          outcome = some (refused reason);
          passed = s.passed ++ err broken ∷ [];
        }))
        (sym t) (v, λ accepts. cc, inr refl)
  concluded_by-Agreed s gone t o n at_end =
      subst
        (Agrees zstd start items (record s {
          open_queue = false;
          outcome = some failed;
          passed = s.passed ++ err broken ∷ [];
        }))
        (sym t) (inr refl)

  poll_verdict-Agreed :
      (s : Offload D)
      → Agreed zstd start items s
      → s.outcome ≡ none
      → (s.pending ≡ none) × (s.inner ≡ [])
      → Agreed zstd start items (poll_verdict s)
  unfolding Agreed
  poll_verdict-Agreed s a n e = concluded_by-Agreed s s.thread refl a n (inl e)

  pub offered-Agreed :
      (s : Offload D) (chunk : Text) (thread : Thread D)
      → s.thread ≡ thread
      → Agrees zstd start items (record s { pending = some chunk }) thread
      → s.outcome ≡ none
      → s.open_queue ≡ true
      → Agreed zstd start items (offered s chunk thread)
  unfolding Agreed
  offered-Agreed s chunk (running c) t (o, whole, (fed, f, w), shut) n there =
      let queued : Offload D = record s {
        pending = none;
        queue = s.queue ++ chunk ∷ [];
        passed = s.passed ++ ok chunk ∷ [];
      } in
      let waits : Offload D = record s { pending = some chunk } in
      elim (Bool-cases (ltb (length s.queue) offload_depth)) [
        | inl room ↦
            subst (λ b. Agreed zstd start items (if b then queued else waits)) (sym room)
              (subst (Agrees zstd start items queued) (sym t) (
                o,
                append_assoc s.passed (ok chunk ∷ []) s.inner ∙ whole,
                (
                  fed,
                  f,
                  sym (append_assoc fed s.queue (chunk ∷ []))
                      ∙ ap (λ r. r ++ chunk ∷ []) w
                      ∙ sym (chunks-append s.passed (ok chunk ∷ [])),
                ),
                λ e. cc,
              ))
        | inr full ↦
            subst (λ b. Agreed zstd start items (if b then queued else waits)) (sym full)
              (subst (Agrees zstd start items waits) (sym t) (o, whole, (fed, f, w), λ e. cc))
      ]
  offered-Agreed s chunk (ended verdict) t (v, passed, o) n there =
      concluded_by-Agreed (record s { pending = none }) s.thread refl
        (subst (Agrees zstd start items (record s { pending = none })) (sym t)
          (v, λ accepts. let (all, pending, inner) = passed accepts in (all, refl, inner), o))
        n (inr λ c e. cc)
  offered-Agreed s chunk gone t o n there =
      concluded_by-Agreed (record s { pending = none }) s.thread refl
        (subst (Agrees zstd start items (record s { pending = none })) (sym t) o) n (inr λ c e. cc)

  errored-Agrees :
      (s : Offload D) (e : BodyError) (rest : List Item) (thread : Thread D)
      → Agrees zstd start items s thread
      → s.inner ≡ err e ∷ rest
      → s.pending ≡ none
      → s.open_queue ≡ true
      → Agrees zstd start items (record s { inner = rest; passed = s.passed ++ err e ∷ [] }) thread
  errored-Agrees s e rest (running c) (o, whole, (fed, f, w), shut) i p there = (
    o,
    append_assoc s.passed (err e ∷ []) (held s.pending ++ rest)
        ∙ ap (λ q. s.passed ++ err e ∷ (held q ++ rest)) p
        ∙ ap (λ r. s.passed ++ r) (sym i)
        ∙ ap (λ q. s.passed ++ (held q ++ s.inner)) (sym p)
        ∙ whole,
    (fed, f, w ∙ sym (append_nil (chunks s.passed)) ∙ sym (chunks-append s.passed (err e ∷ []))),
    λ shut_now. cc,
  )
  errored-Agrees s e rest (ended verdict) (v, passed, o) i p there =
      (v, λ accepts. let (all, pending, inner) = passed accepts in cc, o)
  errored-Agrees s e rest gone o i p there = o

  read-Agrees :
      (s : Offload D) (chunk : Text) (rest : List Item) (thread : Thread D)
      → Agrees zstd start items s thread
      → s.inner ≡ ok chunk ∷ rest
      → s.pending ≡ none
      → s.open_queue ≡ true
      → Agrees zstd start items (record s { inner = rest; pending = some chunk }) thread
  read-Agrees s chunk rest (running c) (o, whole, fed, shut) i p there = (
    o,
    ap (λ r. s.passed ++ r) (sym i) ∙ ap (λ q. s.passed ++ (held q ++ s.inner)) (sym p) ∙ whole,
    fed,
    λ shut_now. cc,
  )
  read-Agrees s chunk rest (ended verdict) (v, passed, o) i p there =
      (v, λ accepts. let (all, pending, inner) = passed accepts in cc, o)
  read-Agrees s chunk rest gone o i p there = o

  pub read_inner-Agreed :
      (s : Offload D) (inner : List Item)
      → Agreed zstd start items s
      → s.inner ≡ inner
      → s.pending ≡ none
      → s.outcome ≡ none
      → s.open_queue ≡ true
      → Agreed zstd start items (read_inner s inner)
  unfolding Agreed
  read_inner-Agreed s [] a i p n there = poll_verdict-Agreed s a n (p, i)
  read_inner-Agreed s (err e ∷ items') a i p n there =
      errored-Agrees s e items' s.thread a i p there
  read_inner-Agreed s (ok chunk ∷ items') a i p n there =
      offered-Agreed (record s { inner = items' }) chunk s.thread refl
        (read-Agrees s chunk items' s.thread a i p there) n there
