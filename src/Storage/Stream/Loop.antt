-- ===== src/Storage/Stream/Loop.antt =====
-- crates/garret-server/src/storage.rs: the loop over the parts of an upload, and what it completes.
use garret.Common.{
  append_nil, ℕ, zero, suc, ◌+◌, ◌≤◌, ◌≡◌, sym, ap, subst, ◌∙◌, Bool, true, List, [], ◌∷◌, ◌++◌,
  arith, Text, All, All-append, length, length-append, ltb, ◌==◌, inl, inr, Bool-cases,
}
use garret.Common.Result.{ok, ok-injective, >>=-eq-ok, map_err}
use garret.Storage.Stream.{
  Reader, Part, Multipart, S3, client, fill, make_room, spawn, parts_loop, multipart_body,
}
use garret.Storage.Stream.Fill.{is_clean, unread, Filled, fill-Filled}
use garret.Storage.Stream.Parts.{IsSent, IsNumbered, make_room-lt, make_room-IsSent}
use garret.Storage.Stream.Sort.{sort}
use garret.Storage.Stream.Cut.{
  contents, IsCut, Full, Sending, Ended, no_parts, map_err-ok, sort-All,
}
use garret.Storage.Stream.Turns.{EndsWell, empty_ended, next_Sending, short_ended}

module _ (s3 : S3) (size : ℕ) (positive : 1 ≤ size) (whole : Text) (clean : Bool) where
  loop-EndsWell :
      (fuel limit k : ℕ) (m : Multipart) (parts : List Part) (r : Reader)
      {sent : Multipart × Reader}
      → Sending s3 size whole clean m parts r
      → Full size parts
      → k ≡ length parts
      → parts_loop s3 fuel size limit k m r ≡ ok sent
      → EndsWell s3 size positive whole clean sent
  unfolding parts_loop
  loop-EndsWell zero limit k m parts r w full e l = cc
  loop-EndsWell (suc fuel) limit k m parts r {sent} w full e l =
      let (room, made, l2) = >>=-eq-ok (make_room s3 (suc (length m.in_flight)) limit m) _ l in
      let (filled, took, l3) = >>=-eq-ok (map_err client (fill size [] r)) _ l2 in
      let f : Filled size [] r.taken (unread r) (is_clean r.body) filled.0 filled.1 =
        fill-Filled size [] r {p = filled} (omega arith)
          (map_err-ok client (fill size [] r) took) in
      let w2 : Sending s3 size whole clean room parts r = record {
        sent = make_room-IsSent s3 (suc (length m.in_flight)) limit m parts {m' = room} w.sent made;
        numbers = w.numbers;
        holds = w.holds;
        rest = w.rest;
        same = w.same;
      } in
      elim (Bool-cases (length filled.0 == 0)) [
        | inl t ↦ subst (EndsWell s3 size positive whole clean) (ok-injective (rw t at l3)) (
            empty_ended s3 size positive whole clean room parts r filled.1 filled.0 w2 full f
              (ground (arith, t)))
        | inr n ↦ elim (Bool-cases (ltb (length filled.0) size)) [
          | inl t ↦ subst (EndsWell s3 size positive whole clean) (ok-injective (rw (n, t) at l3)) (
              short_ended s3 size positive whole clean room parts r filled.1 filled.0 k w2 full f e
                (ground (arith, n)) (ground (arith, t)))
          | inr g ↦
              loop-EndsWell fuel limit (k + 1) (spawn s3 (k + 1) filled.0 room)
                (parts ++ record { number = k + 1; bytes = filled.0 } ∷ []) filled.1 {sent = sent}
                (next_Sending s3 size positive whole clean room parts r filled.1 filled.0 k w2 f e)
                (All-append (λ (p : Part). length p.bytes ≡ size) parts _ full
                  (ground (arith, g, f.fits), tt))
                (omega (
                  arith,
                  e,
                  length-append parts (record { number = k + 1; bytes = filled.0 } ∷ []),
                ))
                (rw (n, g) at l3)
        ]
      ]

  -- Once nothing is in flight, the parts completed are all, when they are sorted.
  drained-Ended :
      (m drained : Multipart) (all : List Part) (r : Reader)
      → Ended s3 size whole clean m all r
      → IsSent s3 drained all
      → drained.in_flight ≡ []
      → Ended s3 size whole clean drained (sort drained.completed) r
  drained-Ended m drained all r ended is_sent none_left =
      let same : sort drained.completed ≡ all =
        ap sort (sym (append_nil drained.completed))
        ∙ ap (λ l. sort (drained.completed ++ l)) (sym none_left)
        ∙ is_sent.sorted in
      record {
        sent = subst (IsSent s3 drained) (sym same) is_sent;
        numbers = subst (IsNumbered 1) (sym same) ended.numbers;
        cut = subst (IsCut size) (sym same) ended.cut;
        holds = ap contents same ∙ ended.holds;
        taken = ended.taken;
        clean_body = ended.clean_body;
      }

  abbrev Completed : List Part × Reader → Type 0
  Completed done =
      (drained : Multipart) × Ended s3 size whole clean drained done.0 done.1
      × All (λ p. s3.upload_part p ≡ true) done.0
      × (s3.complete done.0 ≡ true)

  pub multipart-Ended :
      (fuel limit : ℕ) (m : Multipart) (parts : List Part) (r : Reader) {done : List Part × Reader}
      → Sending s3 size whole clean m parts r
      → Full size parts
      → 1 ≡ length parts
      → multipart_body s3 fuel size limit m r ≡ ok done
      → Completed done
  unfolding multipart_body EndsWell
  multipart-Ended fuel limit m parts r {done} w full e l =
      let (sent, looped, l2) = >>=-eq-ok (parts_loop s3 fuel size limit 1 m r) _ l in
      let (drained, made, l3) =
        >>=-eq-ok (make_room s3 (suc (length sent.0.in_flight)) 1 sent.0) _ l2 in
      let (all, ended) = loop-EndsWell fuel limit 1 m parts r {sent = sent} w full e looped in
      let is_sent : IsSent s3 drained all =
        make_room-IsSent s3 (suc (length sent.0.in_flight)) 1 sent.0 all {m' = drained} ended.sent
          made in
      let none_left : drained.in_flight ≡ [] = no_parts drained.in_flight (
        make_room-lt s3 (suc (length sent.0.in_flight)) 1 sent.0 all {m' = drained} ended.sent
          (omega arith) made) in
      elim (Bool-cases (s3.complete (sort drained.completed))) [
        | inr f ↦ cc (rw f at l3)
        | inl t ↦ subst Completed (ok-injective (rw t at l3)) (
          drained,
          drained-Ended sent.0 drained all sent.1 ended is_sent none_left,
          sort-All s3 drained.completed is_sent.uploaded,
          t,
        )
      ]
