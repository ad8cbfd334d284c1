-- ===== src/Storage/Stream/Stored.antt =====
-- crates/garret-server/src/storage.rs: what `put_streaming` has stored when it succeeds.
use garret.Common.{
  append_nil, ℕ, ◌≤◌, ◌<◌, ◌≡◌, refl, sym, ap, subst, ◌∙◌, Bool, true, false, ◌&&◌, List, [], ◌∷◌,
  ◌++◌, arith, Text, All, length, ltb, ◌==◌, inl, inr, Bool-cases,
}
use garret.Common.Result.{Result, ok, err, ok-injective}
use garret.Db.Schema.{sort_by, insert_by}
use garret.Storage.Stream.{
  Item, Reader, Part, Multipart, S3, PutError, BodyError, Effect, nothing, put_object,
  completed_parts, aborted, new_reader, fill, has_more, multipart_body, multipart_ended, put_first,
  reserve_of, checked, put_checked, put_filled, put_streaming,
}
use garret.Storage.Stream.Fill.{bytes, is_clean, unread, Filled, fill-Filled, has_more-Spent}
use garret.Storage.Stream.Parts.{IsNumbered, numbered_once}
use garret.Storage.Stream.Cut.{contents, IsCut, Full, Sending}
use garret.Storage.Stream.Loop.{multipart-Ended}

-- What a successful put has stored, by how it stored it.
abbrev pub StoredAs : S3 → ℕ → ℕ → Text → Effect → Type 0
StoredAs s3 size reserve whole nothing = ⊥
StoredAs s3 size reserve whole (put_object t) =
    (t ≡ whole) × (length t ≤ reserve) × (s3.put t ≡ true)
StoredAs s3 size reserve whole (completed_parts parts) =
    (contents parts ≡ whole)
    × IsNumbered 1 parts
    × IsCut size parts
    × All (λ p. s3.upload_part p ≡ true) parts
    × (s3.complete parts ≡ true)
StoredAs s3 size reserve whole aborted = ⊥

-- What a put promises, by its result: a success stored the body, and no failure stored any of it.
abbrev pub PutOutcome : S3 → ℕ → ℕ → List Item → Result (Text × ℕ) PutError × Effect → Type 0
PutOutcome s3 size reserve body (ok (hashed, n), effect) =
    (is_clean body ≡ true)
    × (hashed ≡ bytes body)
    × (n ≡ length (bytes body))
    × StoredAs s3 size reserve (bytes body) effect
PutOutcome s3 size reserve body (err e, nothing) = Unit
PutOutcome s3 size reserve body (err e, aborted) = Unit
PutOutcome s3 size reserve body (err e, put_object t) = ⊥
PutOutcome s3 size reserve body (err e, completed_parts parts) = ⊥

module _ (s3 : S3) (fuel size limit hint : ℕ) (positive : 1 ≤ size) (body : List Item) where
  unfoldable pub reserve : ℕ
  reserve = reserve_of s3 hint size

  reserve_le : reserve ≤ size
  unfolding reserve
  reserve_le = ground arith

  -- The first part, and nothing of the body behind it unless it is full.
  pub record Begun (first : Text) (r : Reader) : Type 0 where
    pub rest : first ++ unread r ≡ bytes body
    hashed : r.taken ≡ first
    fits : length first ≤ reserve
    end_of_short : length first < size → (unread r ≡ []) × (is_clean body ≡ true)
    same : is_clean r.body ≡ is_clean body

  start_sends :
      (first : Text) (r : Reader)
      → Begun first r
      → Sending s3 size
          (bytes body)
          (is_clean body)
          (record {
            completed = [];
            in_flight = record { number = 1; bytes = first } ∷ [];
            joins = 0;
          })
          (record { number = 1; bytes = first } ∷ [])
          r
  unfolding sort_by insert_by
  start_sends first r f =
      let parts : List Part = record { number = 1; bytes = first } ∷ [] in
      record {
        sent = record {
          sorted = refl;
          once = λ n. numbered_once n 1 parts (refl, tt);
          uploaded = tt;
        };
        numbers = (refl, tt);
        holds = append_nil first ∙ sym f.hashed;
        rest = ap (λ t. t ++ unread r) f.hashed ∙ f.rest;
        same = f.same;
      }

  put_ended :
      (started : Multipart) (parts : List Part) (r : Reader)
      → Sending s3 size (bytes body) (is_clean body) started parts r
      → Full size parts
      → 1 ≡ length parts
      → (result : Result (List Part × Reader) PutError)
      → multipart_body s3 fuel size limit started r ≡ result
      → PutOutcome s3 size reserve body (multipart_ended s3 result)
  put_ended started parts r w full one (err e) l = tt
  put_ended started parts r w full one (ok done) l =
      let (drained, e, uploaded, completed) =
        multipart-Ended s3 size positive (bytes body) (is_clean body) fuel limit started parts r
          {done = done} w full one l in
      (e.clean_body, e.taken, ap length e.taken, (e.holds, e.numbers, e.cut, uploaded, completed))

  shape_put :
      (first : Text) (r : Reader)
      → Begun first r
      → PutOutcome s3 size reserve body (put_first s3 fuel size limit first r)
  unfolding reserve multipart_body
  shape_put first r f = elim (Bool-cases (ltb (length first) size)) [
    | inl t ↦ elim (Bool-cases (s3.put first)) [
      | inr n ↦ rw (t, n) tt
      | inl y ↦
          let (out, clean) = f.end_of_short (ground (arith, t)) in
          let whole : first ≡ bytes body =
            sym (append_nil first) ∙ ap (λ u. first ++ u) (sym out) ∙ f.rest in
          rw (t, y) (clean, f.hashed ∙ whole, ap length (f.hashed ∙ whole), (whole, f.fits, y))
    ]
    | inr g ↦ elim (Bool-cases s3.create) [
      | inr n ↦ rw (g, n) tt
      | inl y ↦
          rw (g, y)
            (put_ended
              (record {
                completed = [];
                in_flight = record { number = 1; bytes = first } ∷ [];
                joins = 0;
              })
              (record { number = 1; bytes = first } ∷ []) r (start_sends first r f)
              (ground (arith, g, f.fits, reserve_le), tt) refl _ refl)
    ]
  ]

  -- Nothing is behind a first part that fills what a small body may hold.
  spent_begins :
      (first : Text) (r r' : Reader)
      → Filled reserve [] [] (bytes body) (is_clean body) first r
      → has_more r ≡ ok (false, r')
      → Begun first r'
  spent_begins first r r' f l =
      let (out, clean, taken, no_carry, no_body) = has_more-Spent r r' l in
      let at_end : unread r' ≡ [] = rw (no_carry, no_body) refl in
      record {
        rest = ap (λ t. first ++ t) (at_end ∙ sym out) ∙ ap (λ t. t ++ unread r) f.into ∙ f.kept;
        hashed = taken ∙ f.hashed ∙ sym f.into;
        fits = f.fits;
        end_of_short = λ b. (at_end, sym f.same ∙ clean);
        same = ap is_clean no_body ∙ sym clean ∙ f.same;
      }

  kept_begins :
      (first : Text) (r : Reader)
      → Filled reserve [] [] (bytes body) (is_clean body) first r
      → (length first == reserve && ltb reserve size) ≡ false
      → Begun first r
  kept_begins first r f n = record {
    rest = ap (λ t. t ++ unread r) f.into ∙ f.kept;
    hashed = f.hashed ∙ sym f.into;
    fits = f.fits;
    end_of_short = λ b. elim f.ends [
      | inl l ↦ absurd (ground (arith, l, n, b))
      | inr (no_body, no_carry) ↦ (rw (no_carry, no_body) refl, sym f.same ∙ ap is_clean no_body)
    ];
    same = f.same;
  }

  pub checked-Begun :
      (first : Text) (r r' : Reader)
      → Filled reserve [] [] (bytes body) (is_clean body) first r
      → checked s3 reserve size first r ≡ ok (false, r')
      → Begun first r'
  checked-Begun first r r' f l = elim (Bool-cases (length first == reserve && ltb reserve size)) [
    | inl t ↦ spent_begins first r r' f (rw t at l)
    | inr n ↦
        subst (Begun first) (ap (λ (p : Bool × Reader). p.1) (ok-injective (rw n at l)))
          (kept_begins first r f n)
  ]

  checked_put :
      (first : Text) (r : Reader)
      → Filled reserve [] [] (bytes body) (is_clean body) first r
      → (result : Result (Bool × Reader) BodyError) → checked s3 reserve size first r ≡ result
      → PutOutcome s3 size reserve body (put_checked s3 fuel size limit first result)
  checked_put first r f (err e) l = tt
  checked_put first r f (ok (true, r')) l = tt
  checked_put first r f (ok (false, r')) l = shape_put first r' (checked-Begun first r r' f l)

  filled_put :
      (result : Result (Text × Reader) BodyError)
      → fill reserve [] (new_reader body) ≡ result
      → PutOutcome s3 size reserve body (put_filled s3 fuel size limit reserve result)
  filled_put (err e) l = tt
  filled_put (ok (first, r)) l =
      checked_put first r
        (fill-Filled reserve [] (new_reader body) {p = (first, r)} (omega arith) l)
        (checked s3 reserve size first r) refl

-- For a part size of at least one: when `put_streaming` succeeds, the body ended without an error, the
-- digest is of exactly the bytes of the body and the size is their number, and S3 has accepted those
-- bytes, either as one object of at most the reserved size, or as parts numbered from one in order
-- whatever order they finished in, each of which it took, all of the full size but for the last,
-- which is not empty. When it fails, nothing was stored and no upload was completed, where a request
-- that S3 refuses is taken to have stored nothing.
pub put_streaming_lem :
    (s3 : S3) (fuel size limit hint : ℕ) (body : List Item)
    → 1 ≤ size
    → PutOutcome s3 size (reserve_of s3 hint size) body (put_streaming s3 fuel size limit hint body)
unfolding put_streaming reserve
put_streaming_lem s3 fuel size limit hint body b = filled_put s3 fuel size limit hint b body _ refl
