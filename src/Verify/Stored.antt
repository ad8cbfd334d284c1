-- ===== src/Verify/Stored.antt =====
-- crates/garret-pusher/src/verify.rs and `put_streaming` of crates/garret-server/src/storage.rs
-- together: what is stored of a body that is checked on its way.
use garret.Common.{
  ℕ, ◌≤◌, ◌≡◌, sym, ap, subst, ◌∙◌, true, some, List, [], ◌∷◌, Text, inl, inr, length,
}
use garret.Common.Result.{ok, err, ◌>>=◌, Result-cases}
use garret.Storage.Stream.{Item, S3, Effect, put_streaming, reserve_of}
use garret.Storage.Stream.Fill.{bytes, is_clean}
use garret.Storage.Stream.Stored.{StoredAs, PutOutcome, put_streaming_lem}
use garret.Verify.{Zstd, Checker, new_checker, max_compressed_len, feed, finish_check}
use garret.Verify.Nar.{accepted, verified}
use garret.Verify.Inline.{
  chunks, outcome_of, feeds, verdict_on, verified_fed, verified-passes, verified-outcome,
}
use garret.Verify.Decoding.{IsClaimed, verdict_on-IsClaimed}

-- A checked stream that ends without an error is one that the check accepted.
verified-accepted :
    {D : Type 0} (zstd : Zstd D) (c : Checker D) (items : List Item)
    → is_clean (verified zstd c items).0 ≡ true
    → verdict_on zstd c (chunks items) ≡ ok tt
unfolding verified feeds
verified-accepted zstd c [] e = elim (Result-cases (finish_check zstd c)) [
  | inl (done, v) ↦ v
  | inr (reason, v) ↦ cc (rw v at e)
]
verified-accepted zstd c (err x ∷ items) e = cc
verified-accepted zstd c (ok chunk ∷ items) e = elim (Result-cases (feed zstd c chunk)) [
  | inl (next, v) ↦
      ap (λ r. r >>= (λ n. feeds zstd n (chunks items)) >>= finish_check zstd) v
      ∙ verified-accepted zstd next items
          (ap (λ (w : List Item × _). is_clean w.0) (sym (verified_fed zstd c chunk items v)) ∙ e)
  | inr (reason, v) ↦
      cc (ap (λ (w : List Item × _). is_clean w.0) (sym (verified_fed zstd c chunk items v)) ∙ e)
]

-- For a part size of at least one: when the put of a checked body succeeds, the check accepted the
-- body, so that the decoder gives out of it, up to the end of a frame, a NAR of the claimed hash and
-- size, and the body is no longer than an honest one can be; and what S3 holds is the body itself, of
-- which the digest and the length are the ones that are returned.
pub put_verified-IsClaimed :
    {D : Type 0} (zstd : Zstd D) (s3 : S3) (fuel size limit : ℕ) (claimed_hash : Text)
    (claimed_size : ℕ) (items : List Item) {digest_of : Text} {n : ℕ} {effect : Effect}
    → 1 ≤ size
    → put_streaming s3 fuel size limit
        (max_compressed_len zstd claimed_size)
        (verified zstd (new_checker zstd claimed_hash claimed_size) items).0
      ≡ (ok (digest_of, n), effect)
    → ((verified zstd (new_checker zstd claimed_hash claimed_size) items).1 ≡ some accepted)
      × IsClaimed zstd claimed_hash claimed_size (chunks items)
      × (digest_of ≡ bytes items)
      × (n ≡ length (bytes items))
      × StoredAs s3 size
          (reserve_of s3 (max_compressed_len zstd claimed_size) size)
          (bytes items)
          effect
put_verified-IsClaimed zstd s3 fuel size limit claimed_hash claimed_size items {digest_of} {n}
      {effect} b e =
    let c = new_checker zstd claimed_hash claimed_size in
    let hint = max_compressed_len zstd claimed_size in
    let o : PutOutcome s3 size (reserve_of s3 hint size) (verified zstd c items).0
        (ok (digest_of, n), effect) =
      subst (PutOutcome s3 size (reserve_of s3 hint size) (verified zstd c items).0) e
        (put_streaming_lem s3 fuel size limit hint (verified zstd c items).0 b) in
    let v = verified-accepted zstd c items o.0 in
    let same : bytes (verified zstd c items).0 ≡ bytes items =
      ap bytes (verified-passes zstd c items v) in
    (
      verified-outcome zstd c items ∙ ap (λ r. some (outcome_of r)) v,
      verdict_on-IsClaimed zstd claimed_hash claimed_size (chunks items) v,
      o.1 ∙ same,
      o.2 ∙ ap length same,
      subst (λ w. StoredAs s3 size (reserve_of s3 hint size) w effect) same o.3,
    )
