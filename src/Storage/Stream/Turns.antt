-- ===== src/Storage/Stream/Turns.antt =====
-- crates/garret-server/src/storage.rs: one turn of the loop over the parts of an upload.
use garret.Common.{
  append_assoc, append_nil, ℕ, ◌+◌, ◌≤◌, ◌<◌, ◌≡◌, refl, sym, ap, subst, ◌∙◌, Bool, true, none,
  List, [], ◌∷◌, ◌++◌, arith, Text, length, inl, inr,
}
use garret.Storage.Stream.{Reader, Part, Multipart, S3, spawn}
use garret.Storage.Stream.Fill.{is_clean, unread, Filled}
use garret.Storage.Stream.Parts.{IsSent, IsNumbered-append, spawn-IsSent}
use garret.Storage.Stream.Cut.{
  Full, Full-IsCut, Full-append, contents-append, Sending, Ended, no_bytes,
}

module _ (s3 : S3) (size : ℕ) (positive : 1 ≤ size) (whole : Text) (clean : Bool) where
  -- What a part adds to what was read.
  taken_on :
      (r r' : Reader) (part : Text)
      → r.taken ++ unread r ≡ whole
      → Filled size [] r.taken (unread r) (is_clean r.body) part r'
      → (r'.taken ≡ r.taken ++ part) × (r'.taken ++ unread r' ≡ whole)
  taken_on r r' part e f =
      let taken : r'.taken ≡ r.taken ++ part = f.hashed ∙ ap (λ t. r.taken ++ t) (sym f.into) in
      (
        taken,
        ap (λ t. t ++ unread r') f.hashed
            ∙ append_assoc r.taken f.got (unread r')
            ∙ ap (λ t. r.taken ++ t) f.kept
            ∙ e,
      )

  read_out :
      (r : Reader) → r.body ≡ [] → r.carry ≡ none → (unread r ≡ []) × (is_clean r.body ≡ true)
  read_out r b c = (rw (b, c) refl, rw b refl)

  loop_ended :
      (m : Multipart) (parts : List Part) (r r' : Reader) (part : Text)
      → Sending s3 size whole clean m parts r
      → Full size parts
      → Filled size [] r.taken (unread r) (is_clean r.body) part r'
      → (r'.body ≡ []) × (r'.carry ≡ none)
      → (r'.taken ≡ whole) × (clean ≡ true)
  loop_ended m parts r r' part w full f (b, c) =
      let (empty, clean_end) = read_out r' b c in
      let (taken, rest) = taken_on r r' part w.rest f in
      (
        sym (append_nil r'.taken) ∙ ap (λ t. r'.taken ++ t) (sym empty) ∙ rest,
        sym w.same ∙ sym f.same ∙ clean_end,
      )

  -- The loop, by how full the next part is.
  unfoldable pub EndsWell : Multipart × Reader → Type 0
  EndsWell sent = (parts : List Part) × Ended s3 size whole clean sent.0 parts sent.1

  part_ended :
      (m : Multipart) (parts : List Part) (r r' : Reader) (part : Text)
      → Sending s3 size whole clean m parts r
      → Full size parts
      → Filled size [] r.taken (unread r) (is_clean r.body) part r'
      → (length part < size)
      → (r'.body ≡ []) × (r'.carry ≡ none)
  part_ended m parts r r' part w full f b = elim f.ends [
    | inl l ↦ absurd (omega (arith, l, b))
    | inr e ↦ e
  ]

  pub empty_ended :
      (m : Multipart) (parts : List Part) (r r' : Reader) (part : Text)
      → Sending s3 size whole clean m parts r
      → Full size parts
      → Filled size [] r.taken (unread r) (is_clean r.body) part r'
      → length part ≡ 0
      → EndsWell (m, r')
  unfolding EndsWell
  empty_ended m parts r r' part w full f e =
      let at_end = part_ended m parts r r' part w full f (omega (arith, e, positive)) in
      let (taken, clean_body) = loop_ended m parts r r' part w full f at_end in
      (
        parts,
        record {
          sent = w.sent;
          numbers = w.numbers;
          cut = Full-IsCut size parts positive full;
          holds =
              w.holds
              ∙ sym (
                  (taken_on r r' part w.rest f).0
                  ∙ ap (λ t. r.taken ++ t) (no_bytes part e)
                  ∙ append_nil r.taken)
              ∙ taken;
          taken = taken;
          clean_body = clean_body;
        },
      )

  pub next_Sending :
      (m : Multipart) (parts : List Part) (r r' : Reader) (part : Text) (k : ℕ)
      → Sending s3 size whole clean m parts r
      → Filled size [] r.taken (unread r) (is_clean r.body) part r'
      → k ≡ length parts
      → Sending s3 size whole clean
          (spawn s3 (k + 1) part m)
          (parts ++ record { number = k + 1; bytes = part } ∷ [])
          r'
  next_Sending m parts r r' part k w f e =
      let (taken, rest) = taken_on r r' part w.rest f in
      let new : Part = record { number = k + 1; bytes = part } in
      record {
        sent =
            subst
              (λ n.
                IsSent s3 (spawn s3 (n + 1) part m)
                  (parts ++ record { number = n + 1; bytes = part } ∷ []))
              (sym e) (spawn-IsSent s3 m parts part w.sent w.numbers);
        numbers = IsNumbered-append 1 parts new w.numbers (omega (arith, e));
        holds = contents-append parts new ∙ ap (λ t. t ++ part) w.holds ∙ sym taken;
        rest = rest;
        same = f.same ∙ w.same;
      }

  pub short_ended :
      (m : Multipart) (parts : List Part) (r r' : Reader) (part : Text) (k : ℕ)
      → Sending s3 size whole clean m parts r
      → Full size parts
      → Filled size [] r.taken (unread r) (is_clean r.body) part r'
      → k ≡ length parts
      → 1 ≤ length part
      → length part < size
      → EndsWell (spawn s3 (k + 1) part m, r')
  unfolding EndsWell
  short_ended m parts r r' part k w full f e b c =
      let at_end = part_ended m parts r r' part w full f c in
      let (taken, clean_body) = loop_ended m parts r r' part w full f at_end in
      let next = next_Sending m parts r r' part k w f e in
      let new : Part = record { number = k + 1; bytes = part } in
      (
        parts ++ new ∷ [],
        record {
          sent = next.sent;
          numbers = next.numbers;
          cut = Full-append size parts new full b (omega (arith, c));
          holds = next.holds ∙ taken;
          taken = taken;
          clean_body = clean_body;
        },
      )
