-- ===== src/Verify/Loop.antt =====
-- crates/garret-pusher/src/verify.rs: the loop of `feed` ends.
use garret.Common.{
  ℕ, zero, suc, ◌+◌, ◌-◌, ◌≤◌, ◌<◌, ◌≡◌, ◌⊎◌, sym, ap, subst, ◌∙◌, false, Bool-cases, Option-cases,
  some, List, [], ◌∷◌, Text, inl, inr, length, drop, length-drop, ltb, ◌==◌, arith,
}
use garret.Common.Result.{ok, err, ok-injective, >>=-eq-err, Result-cases}
use garret.StorePath.Base32.{sha256_nix32}
use garret.Verify.{
  DecoderCall, Zstd, Checker, refuse, out_of_fuel, saturating_add, stepped, is_spent, feed_loop,
  feed, Reason, new_checker, finish_check, is_hash,
}
use garret.Storage.Stream.{Item}
use garret.Verify.Nar.{accepted, refused, verified}
use garret.Verify.Inline.{chunks, outcome_of, feeds, verdict_on, verified-outcome}
use garret.Verify.Fed.{looped, loop_turn}

-- zstd's streaming decoder makes progress: a call that leaves input, or that fills the output buffer,
-- has taken a byte or given one out; and it takes no more than there is.
unfoldable pub Progresses : {D : Type 0} → Zstd D → Type 0
Progresses {D} zstd =
    (d : D) (src : Text) (call : DecoderCall D)
    → zstd.run d src ≡ some call
    → (call.consumed ≤ length src)
      × (call.consumed < length src → 1 ≤ call.consumed + length call.output)

less :
    (consumed output : ℕ) (src : Text) (nar claimed fuel : ℕ)
    → length src + (claimed - nar) < suc fuel
    → consumed ≤ length src
    → nar + output ≤ claimed
    → 1 ≤ consumed + output
    → length (drop consumed src) + (claimed - (nar + output)) < fuel
less consumed output src nar claimed fuel b takes within gained =
    omega (arith, b, takes, within, gained, length-drop consumed src)

module _ {D : Type 0} (zstd : Zstd D) (progresses : Progresses zstd) where
  gains :
      (d : D) (src : Text) (call : DecoderCall D)
      → zstd.run d src ≡ some call
      → is_spent zstd src call ≡ false
      → 1 ≤ call.consumed + length call.output
  unfolding Progresses
  gains d src call r more =
      let (takes, moves) = progresses d src call r in
      elim (Bool-cases (call.consumed == length src)) [
        | inl all ↦ ground (arith, all, more)
        | inr left ↦ moves (ground (arith, left, takes))
      ]

  feed_loop-total :
      (fuel : ℕ) (c : Checker D) (src : Text)
      → length src + (c.claimed_size - c.nar_size) < fuel
      → c.nar_size ≤ c.claimed_size
      → ¬ (feed_loop zstd fuel c src ≡ err out_of_fuel)
  unfolding feed_loop Progresses
  feed_loop-total zero c src b w e = absurd (omega (arith, b))
  feed_loop-total (suc fuel) c src b w e = elim (Option-cases (zstd.run c.decoder src)) [
    | inl n ↦ cc (loop_turn zstd fuel c src n)
    | inr (call, r) ↦
        let e2 : looped zstd fuel c src (some call) ≡ err out_of_fuel =
          sym (loop_turn zstd fuel c src r) ∙ e in
        elim (Bool-cases (ltb c.claimed_size (c.nar_size + length call.output))) [
          | inl over ↦ cc (rw over at e2)
          | inr within ↦ elim (Bool-cases (is_spent zstd src call)) [
            | inl spent ↦ cc (rw (within, spent) at e2)
            | inr more ↦
                let (takes, moves) = progresses c.decoder src call r in
                feed_loop-total fuel (stepped zstd c src call) (drop call.consumed src)
                  (less call.consumed (length call.output) src c.nar_size c.claimed_size fuel b
                    takes (ground (arith, within)) (gains c.decoder src call r more))
                  (ground (arith, within)) (rw (within, more) at e2)
          ]
        ]
  ]

feed-total :
    {D : Type 0} (zstd : Zstd D) (c : Checker D) (chunk : Text)
    → Progresses zstd
    → c.nar_size ≤ c.claimed_size
    → ¬ (feed zstd c chunk ≡ err out_of_fuel)
unfolding feed
feed-total zstd c chunk progresses b e =
    let counted = record c { compressed = saturating_add c.compressed (length chunk) } in
    elim (Bool-cases (ltb c.max_compressed counted.compressed)) [
      | inl over ↦ cc (rw over at e)
      | inr within ↦
          feed_loop-total zstd progresses (suc (length chunk + c.claimed_size)) counted chunk
            (omega arith) b (rw within at e)
    ]

feed_loop-within :
    {D : Type 0} (zstd : Zstd D) (fuel : ℕ) (c : Checker D) (src : Text) {c' : Checker D}
    → feed_loop zstd fuel c src ≡ ok c'
    → c'.nar_size ≤ c'.claimed_size
unfolding feed_loop
feed_loop-within zstd zero c src e = cc
feed_loop-within zstd (suc fuel) c src {c'} e = elim (Option-cases (zstd.run c.decoder src)) [
  | inl n ↦ cc (loop_turn zstd fuel c src n)
  | inr (call, r) ↦
      let e2 : looped zstd fuel c src (some call) ≡ ok c' = sym (loop_turn zstd fuel c src r) ∙ e in
      elim (Bool-cases (ltb c.claimed_size (c.nar_size + length call.output))) [
        | inl over ↦ cc (rw over at e2)
        | inr within ↦ elim (Bool-cases (is_spent zstd src call)) [
          | inl spent ↦
              subst (λ (n : Checker _). n.nar_size ≤ n.claimed_size)
                (ok-injective (rw (within, spent) at e2)) (ground (arith, within))
          | inr more ↦
              feed_loop-within zstd fuel (stepped zstd c src call) (drop call.consumed src)
                {c' = c'} (rw (within, more) at e2)
        ]
      ]
]

feed-within :
    {D : Type 0} (zstd : Zstd D) (c : Checker D) (chunk : Text) {c' : Checker D}
    → feed zstd c chunk ≡ ok c'
    → c'.nar_size ≤ c'.claimed_size
unfolding feed
feed-within zstd c chunk {c'} e =
    let counted = record c { compressed = saturating_add c.compressed (length chunk) } in
    elim (Bool-cases (ltb c.max_compressed counted.compressed)) [
      | inl over ↦ cc (rw over at e)
      | inr within ↦
          feed_loop-within zstd (suc (length chunk + c.claimed_size)) counted chunk {c' = c'}
            (rw within at e)
    ]

feeds-total :
    {D : Type 0} (zstd : Zstd D) (c : Checker D) (cs : List Text)
    → Progresses zstd
    → c.nar_size ≤ c.claimed_size
    → ¬ (feeds zstd c cs ≡ err out_of_fuel)
unfolding feeds
feeds-total zstd c [] progresses b e = cc
feeds-total zstd c (chunk ∷ cs) progresses b e =
    elim (>>=-eq-err (feed zstd c chunk) (λ n. feeds zstd n cs) e) [
      | inl l ↦ feed-total zstd c chunk progresses b l
      | inr (next, first, rest) ↦
          feeds-total zstd next cs progresses (feed-within zstd c chunk {c' = next} first) rest
    ]

finish_check-total :
    {D : Type 0} (zstd : Zstd D) (c : Checker D) → ¬ (finish_check zstd c ≡ err out_of_fuel)
unfolding finish_check
finish_check-total zstd c e = elim (Bool-cases c.frame_done) [
  | inr mid ↦ cc (rw mid at e)
  | inl at_end ↦ elim (Bool-cases (c.nar_size == c.claimed_size)) [
    | inr other ↦ cc (rw (at_end, other) at e)
    | inl same ↦
        elim (Bool-cases (is_hash zstd (sha256_nix32 (zstd.sha256 c.hashed)) c.claimed_hash)) [
          | inr other ↦ cc (rw (at_end, same, other) at e)
          | inl matches ↦ cc (rw (at_end, same, matches) at e)
        ]
  ]
]

-- For a decoder that makes progress, the check of a stream comes to a verdict, whatever the stream and
-- whatever the NAR was claimed to be.
pub verified-total :
    {D : Type 0} (zstd : Zstd D) (claimed_hash : Text) (claimed_size : ℕ) (items : List Item)
    → Progresses zstd
    → ((verified zstd (new_checker zstd claimed_hash claimed_size) items).1 ≡ some accepted)
      ⊎ ((reason : Reason) × ((verified zstd (new_checker zstd claimed_hash claimed_size) items).1
            ≡ some (refused (refuse reason))))
verified-total zstd claimed_hash claimed_size items progresses =
    let c = new_checker zstd claimed_hash claimed_size in
    elim (Result-cases (verdict_on zstd c (chunks items))) [
      | inl (done, v) ↦ inl (verified-outcome zstd c items ∙ ap (λ r. some (outcome_of r)) v)
      | inr (refuse reason, v) ↦
          inr (reason, verified-outcome zstd c items ∙ ap (λ r. some (outcome_of r)) v)
      | inr (out_of_fuel, v) ↦
          absurd (elim (>>=-eq-err (feeds zstd c (chunks items)) (finish_check zstd) v) [
            | inl l ↦ feeds-total zstd c (chunks items) progresses (omega arith) l
            | inr (n, fed, l) ↦ finish_check-total zstd n l
          ])
    ]
