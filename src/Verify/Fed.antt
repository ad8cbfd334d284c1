-- ===== src/Verify/Fed.antt =====
-- crates/garret-pusher/src/verify.rs: the chunks that a decoder has been fed, and what it has made of them.
use garret.Common.{
  append_assoc, append_nil, ℕ, zero, suc, ◌+◌, ◌≤◌, ◌≡◌, refl, sym, ap, subst, ◌∙◌, Bool, true,
  Bool-cases, Option-cases, ◌||◌, Option, none, some, List, [], ◌∷◌, ◌++◌, Text, inl, inr, length,
  length-append, drop, ltb, ◌==◌, min, if◌then◌else◌, arith,
}
use garret.Common.Result.{Result, ok, err, ok-injective, >>=-eq-ok}
use garret.Verify.{
  DecoderCall, Zstd, Checker, Fault, refuse, not_zstd, saturating_add, stepped, is_spent, called,
  feed_loop, feed,
}
use garret.Verify.Inline.{feeds}

pub saturates : (a m : ℕ) → a ≤ m → a ≡ min (a + 0) m
saturates a m b = ground (arith, b)

pub min_le : (a m : ℕ) → min a m ≤ m
min_le a m = ground arith

pub min_twice : (a b t m : ℕ) → min (min (a + b) m + t) m ≡ min (a + (b + t)) m
min_twice a b t m = ground arith

module _ {D : Type 0} (zstd : Zstd D) where
  -- Where the stream stands after a call.
  abbrev pub boundary : Bool → DecoderCall D → Bool
  boundary before call =
      if ltb 0 call.consumed || ltb 0 (length call.output) then call.hint == 0 else before

  -- Calls of the decoder that use up the chunks one after another, end at the boundary of a frame, and
  -- give out a NAR. The Boolean says whether the last call ended at one.
  pub data Decodes : D → Bool → List Text → Text → Type 0 where
    stream_ended : (d : D) → Decodes d true [] []
    chunk_used :
        (d : D) (b : Bool) (cs : List Text) (nar : Text)
        → Decodes d b cs nar
        → Decodes d b ([] ∷ cs) nar
    call_made :
        (d : D) (b : Bool) (src : Text) (cs : List Text) (nar : Text) (call : DecoderCall D)
        → zstd.run d src ≡ some call
        → Decodes call.decoder (boundary b call) (drop call.consumed src ∷ cs) nar
        → Decodes d b (src ∷ cs) (call.output ++ nar)

  -- What was fed to a checker.
  pub record Fed (c : Checker D) (cs : List Text) (c' : Checker D) : Type 0 where
    pub got : Text
    pub hashed : c'.hashed ≡ c.hashed ++ got
    pub size : c'.nar_size ≡ c.nar_size + length got
    pub decodes :
        (rest : List Text) (nar : Text)
        → Decodes c'.decoder c'.frame_done rest nar
        → Decodes c.decoder c.frame_done (cs ++ rest) (got ++ nar)
    pub hash : c'.claimed_hash ≡ c.claimed_hash
    pub claimed : c'.claimed_size ≡ c.claimed_size
    pub bound : c'.max_compressed ≡ c.max_compressed

  nothing_left : (n : ℕ) (src : Text) → (n == length src) ≡ true → drop n src ≡ []
  nothing_left zero [] e = refl
  nothing_left (suc n) [] e = refl
  nothing_left zero (x ∷ src) e = absurd (ground (arith, e))
  nothing_left (suc n) (x ∷ src) e = nothing_left n src (ground (arith, e))

  called-Fed :
      (c : Checker D) (src : Text) (call : DecoderCall D) (c' : Checker D)
      → zstd.run c.decoder src ≡ some call
      → Fed (stepped zstd c src call) (drop call.consumed src ∷ []) c'
      → Fed c (src ∷ []) c'
  called-Fed c src call c' r f = record {
    got = call.output ++ f.got;
    hashed = f.hashed ∙ append_assoc c.hashed call.output f.got;
    size = omega (arith, f.size, length-append call.output f.got);
    decodes = λ rest nar d.
        subst (Decodes c.decoder c.frame_done (src ∷ rest))
          (sym (append_assoc call.output f.got nar))
          (call_made c.decoder c.frame_done src rest (f.got ++ nar) call r (f.decodes rest nar d));
    hash = f.hash;
    claimed = f.claimed;
    bound = f.bound;
  }

  spent-Fed :
      (c : Checker D) (src : Text) (call : DecoderCall D)
      → zstd.run c.decoder src ≡ some call
      → is_spent zstd src call ≡ true
      → Fed c (src ∷ []) (stepped zstd c src call)
  spent-Fed c src call r e = called-Fed c src call (stepped zstd c src call) r record {
    got = [];
    hashed = sym (append_nil (c.hashed ++ call.output));
    size = omega arith;
    decodes = λ rest nar d.
        subst (λ left. Decodes call.decoder (boundary c.frame_done call) (left ∷ rest) nar)
          (sym (nothing_left call.consumed src (ground (arith, e))))
          (chunk_used call.decoder (boundary c.frame_done call) rest nar d);
    hash = refl;
    claimed = refl;
    bound = refl;
  }

  abbrev pub looped : ℕ → Checker D → Text → Option (DecoderCall D) → Result (Checker D) Fault
  looped fuel c src answer = elim answer [
    | none ↦ err (refuse not_zstd)
    | some call ↦
        called zstd c src call
          (feed_loop zstd fuel (stepped zstd c src call) (drop call.consumed src))
  ]

  pub loop_turn :
      (fuel : ℕ) (c : Checker D) (src : Text) {answer : Option (DecoderCall D)}
      → zstd.run c.decoder src ≡ answer
      → feed_loop zstd (suc fuel) c src ≡ looped fuel c src answer
  unfolding feed_loop
  loop_turn fuel c src e = ap (looped fuel c src) e

  feed_loop-Fed :
      (fuel : ℕ) (c : Checker D) (src : Text) {c' : Checker D}
      → feed_loop zstd fuel c src ≡ ok c'
      → Fed c (src ∷ []) c'
  unfolding feed_loop
  feed_loop-Fed zero c src e = cc
  feed_loop-Fed (suc fuel) c src {c'} e = elim (Option-cases (zstd.run c.decoder src)) [
    | inl n ↦ cc (loop_turn fuel c src n)
    | inr (call, r) ↦
        let e2 : looped fuel c src (some call) ≡ ok c' = sym (loop_turn fuel c src r) ∙ e in
        elim (Bool-cases (ltb c.claimed_size (c.nar_size + length call.output))) [
          | inl over ↦ cc (rw over at e2)
          | inr within ↦ elim (Bool-cases (is_spent zstd src call)) [
            | inl spent ↦
                subst (Fed c (src ∷ [])) (ok-injective (rw (within, spent) at e2))
                  (spent-Fed c src call r spent)
            | inr more ↦ called-Fed c src call c' r (
                feed_loop-Fed fuel (stepped zstd c src call) (drop call.consumed src) {c' = c'}
                  (rw (within, more) at e2))
          ]
        ]
  ]

  pub feed-Fed :
      (c : Checker D) (chunk : Text) {c' : Checker D}
      → feed zstd c chunk ≡ ok c'
      → Fed c (chunk ∷ []) c'
  unfolding feed
  feed-Fed c chunk {c'} e =
      let counted = record c { compressed = saturating_add c.compressed (length chunk) } in
      elim (Bool-cases (ltb c.max_compressed counted.compressed)) [
        | inl over ↦ cc (rw over at e)
        | inr within ↦
            let f : Fed counted (chunk ∷ []) c' =
              feed_loop-Fed (suc (length chunk + c.claimed_size)) counted chunk {c' = c'}
                (rw within at e) in
            record {
              got = f.got;
              hashed = f.hashed;
              size = f.size;
              decodes = f.decodes;
              hash = f.hash;
              claimed = f.claimed;
              bound = f.bound;
            }
      ]

  pub feeds-Fed :
      (c : Checker D) (cs : List Text) {c' : Checker D} → feeds zstd c cs ≡ ok c' → Fed c cs c'
  unfolding feeds
  feeds-Fed c [] {c'} e = subst (Fed c []) (ok-injective e) record {
    got = [];
    hashed = sym (append_nil c.hashed);
    size = omega arith;
    decodes = λ rest nar d. d;
    hash = refl;
    claimed = refl;
    bound = refl;
  }
  feeds-Fed c (chunk ∷ cs) {c'} e =
      let (next, first, more) = >>=-eq-ok (feed zstd c chunk) (λ n. feeds zstd n cs) e in
      let f : Fed c (chunk ∷ []) next = feed-Fed c chunk {c' = next} first in
      let g : Fed next cs c' = feeds-Fed next cs {c' = c'} more in
      record {
        got = f.got ++ g.got;
        hashed = g.hashed ∙ ap (λ t. t ++ g.got) f.hashed ∙ append_assoc c.hashed f.got g.got;
        size = omega (arith, f.size, g.size, length-append f.got g.got);
        decodes = λ rest nar d.
            subst (Decodes c.decoder c.frame_done (chunk ∷ (cs ++ rest)))
              (sym (append_assoc f.got g.got nar))
              (f.decodes (cs ++ rest) (g.got ++ nar) (g.decodes rest nar d));
        hash = g.hash ∙ f.hash;
        claimed = g.claimed ∙ f.claimed;
        bound = g.bound ∙ f.bound;
      }
