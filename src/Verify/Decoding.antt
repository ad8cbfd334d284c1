-- ===== src/Verify/Decoding.antt =====
-- crates/garret-pusher/src/verify.rs: what a NAR that passes its check decodes to.
use garret.Common.{
  append_nil, ℕ, zero, suc, ◌+◌, ◌≤◌, ◌≡◌, sym, ap, subst, ◌∙◌, true, false, Bool-cases,
  Option-cases, Option, none, some, List, [], ◌∷◌, ◌++◌, Text, inl, inr, length, drop, ltb, ◌==◌,
  min, arith, text_eq→≡,
}
use garret.Common.Result.{ok, ok-injective, >>=-eq-ok}
use garret.StorePath.Base32.{sha256_nix32}
use garret.Verify.{
  Zstd, Checker, saturating_add, usize_max, max_compressed_len, new_checker, stepped, is_spent,
  feed_loop, feed, is_hash, finish_check,
}
use garret.Verify.Inline.{feeds, verdict_on}
use garret.Verify.Fed.{
  saturates, min_le, min_twice, Decodes, Fed, looped, loop_turn, feed-Fed, feeds-Fed, stream_ended,
}

module _ {D : Type 0} (zstd : Zstd D) where
  feed_loop-compressed :
      (fuel : ℕ) (c : Checker D) (src : Text) {c' : Checker D}
      → feed_loop zstd fuel c src ≡ ok c'
      → c'.compressed ≡ c.compressed
  unfolding feed_loop
  feed_loop-compressed zero c src e = cc
  feed_loop-compressed (suc fuel) c src {c'} e = elim (Option-cases (zstd.run c.decoder src)) [
    | inl n ↦ cc (loop_turn zstd fuel c src n)
    | inr (call, r) ↦
        let e2 : looped zstd fuel c src (some call) ≡ ok c' =
          sym (loop_turn zstd fuel c src r) ∙ e in
        elim (Bool-cases (ltb c.claimed_size (c.nar_size + length call.output))) [
          | inl over ↦ cc (rw over at e2)
          | inr within ↦ elim (Bool-cases (is_spent zstd src call)) [
            | inl spent ↦
                ap (λ (n : Checker D). n.compressed) (sym (ok-injective (rw (within, spent) at e2)))
            | inr more ↦
                feed_loop-compressed fuel (stepped zstd c src call) (drop call.consumed src)
                  {c' = c'} (rw (within, more) at e2)
          ]
        ]
  ]

  feed-compressed :
      (c : Checker D) (chunk : Text) {c' : Checker D}
      → feed zstd c chunk ≡ ok c'
      → (c'.compressed ≡ saturating_add c.compressed (length chunk))
        × (c'.compressed ≤ c.max_compressed)
  unfolding feed
  feed-compressed c chunk {c'} e =
      let counted = record c { compressed = saturating_add c.compressed (length chunk) } in
      elim (Bool-cases (ltb c.max_compressed counted.compressed)) [
        | inl over ↦ cc (rw over at e)
        | inr within ↦
            let same =
              feed_loop-compressed (suc (length chunk + c.claimed_size)) counted chunk {c' = c'}
                (rw within at e) in
            (same, ground (arith, within, same))
      ]

  abbrev pub total : List Text → ℕ
  total [] = 0
  total (chunk ∷ cs) = length chunk + total cs

  feeds-compressed :
      (c : Checker D) (cs : List Text) {c' : Checker D}
      → c.compressed ≤ c.max_compressed
      → c.compressed ≤ usize_max
      → feeds zstd c cs ≡ ok c'
      → (c'.compressed ≡ min (c.compressed + total cs) usize_max)
        × (c'.compressed ≤ c.max_compressed)
  unfolding feeds
  feeds-compressed c [] {c'} b w e =
      subst
        (λ (n : Checker D).
          (n.compressed ≡ min (c.compressed + 0) usize_max) × (n.compressed ≤ c.max_compressed))
        (ok-injective e) (saturates c.compressed usize_max w, b)
  feeds-compressed c (chunk ∷ cs) {c'} b w e =
      let (next, first, more) = >>=-eq-ok (feed zstd c chunk) (λ n. feeds zstd n cs) e in
      let (now, below) = feed-compressed c chunk {c' = next} first in
      let kept = (feed-Fed zstd c chunk {c' = next} first).bound in
      let (later, within) =
        feeds-compressed next cs {c' = c'} (omega (arith, below, kept))
          (subst (λ n. n ≤ usize_max) (sym now) (min_le (c.compressed + length chunk) usize_max))
          more in
      (
        later
            ∙ ap (λ n. min (n + total cs) usize_max) now
            ∙ min_twice c.compressed (length chunk) (total cs) usize_max,
        omega (arith, within, kept),
      )

-- What a checker that accepts has seen: the decoder gives out of the chunks, up to the end of a frame,
-- a NAR of the claimed size and hash, and the chunks are within the bound for that size.
pub IsClaimed : {D : Type 0} → Zstd D → Text → ℕ → List Text → Type 0
IsClaimed zstd claimed_hash claimed_size cs =
    (nar : Text) × Decodes zstd zstd.start false cs nar
    × (length nar ≡ claimed_size)
    × (sha256_nix32 (zstd.sha256 nar) ≡ some claimed_hash)
    × (min (total zstd cs) usize_max ≤ max_compressed_len zstd claimed_size)

is_hash-eq :
    {D : Type 0} (zstd : Zstd D) (hash : Option Text) (claimed : Text)
    → is_hash zstd hash claimed ≡ true
    → hash ≡ some claimed
is_hash-eq zstd none claimed e = cc
is_hash-eq zstd (some hash) claimed e = ap some (text_eq→≡ hash claimed e)

pub verdict_on-IsClaimed :
    {D : Type 0} (zstd : Zstd D) (claimed_hash : Text) (claimed_size : ℕ) (cs : List Text)
    → verdict_on zstd (new_checker zstd claimed_hash claimed_size) cs ≡ ok tt
    → IsClaimed zstd claimed_hash claimed_size cs
unfolding IsClaimed finish_check
verdict_on-IsClaimed zstd claimed_hash claimed_size cs v =
    let start = new_checker zstd claimed_hash claimed_size in
    let (c, fed, finished) = >>=-eq-ok (feeds zstd start cs) (finish_check zstd) v in
    let f : Fed zstd start cs c = feeds-Fed zstd start cs {c' = c} fed in
    elim (Bool-cases c.frame_done) [
      | inr mid ↦ cc (rw mid at finished)
      | inl at_end ↦ elim (Bool-cases (c.nar_size == c.claimed_size)) [
        | inr other ↦ cc (rw (at_end, other) at finished)
        | inl same ↦
            elim (Bool-cases (is_hash zstd (sha256_nix32 (zstd.sha256 c.hashed)) c.claimed_hash)) [
              | inr other ↦ cc (rw (at_end, same, other) at finished)
              | inl matches ↦
                  let whole : Decodes zstd zstd.start false (cs ++ []) (f.got ++ []) =
                    f.decodes [] [] (
                      subst (λ b. Decodes zstd c.decoder b [] []) (sym at_end)
                        (stream_ended c.decoder)) in
                  let counted =
                    feeds-compressed zstd start cs {c' = c} (omega arith) (omega arith) fed in
                  (
                    f.got,
                    subst (λ n. Decodes zstd zstd.start false n f.got) (append_nil cs)
                        (subst (λ n. Decodes zstd zstd.start false (cs ++ []) n) (append_nil f.got)
                          whole),
                    ground (arith, f.size, f.claimed, same),
                    ap (λ n. sha256_nix32 (zstd.sha256 n)) (sym f.hashed)
                        ∙ is_hash-eq zstd (sha256_nix32 (zstd.sha256 c.hashed)) c.claimed_hash
                            matches
                        ∙ ap some f.hash,
                    omega (arith, counted.0, counted.1),
                  )
            ]
      ]
    ]
