-- ===== src/Storage/Stream/Enough.antt =====
-- crates/garret-server/src/storage.rs: the loop over the parts ends, since each takes bytes off the body.
use garret.Common.{
  subst, ℕ, zero, suc, ◌+◌, ◌≤◌, ◌<◌, ◌≡◌, refl, sym, ap, ◌∙◌, Bool, true, false, List, [], ◌∷◌,
  arith, Text, length, length-append, ltb, leb, ◌==◌, inl, inr, Bool-cases,
}
use garret.Common.Result.{Result, ok, err, ok-injective, err-injective, >>=-eq-err, map_err}
use garret.Db.Schema.{sort_by}
use garret.Storage.Stream.{
  Item, Reader, BodyError, Part, Multipart, S3, PutError, out_of_fuel, client, earlier, collect,
  make_room, remove_at, Effect, spawn, parts_loop, multipart_body, multipart_ended, put_first,
  checked, put_checked, put_filled, put_streaming, reserve_of, fill, new_reader,
}
use garret.Storage.Stream.Fill.{bytes, is_clean, unread, Filled, fill-Filled}
use garret.Storage.Stream.Stored.{checked-Begun, reserve}
use garret.Storage.Stream.Cut.{map_err-ok}

collect-total : (s3 : S3) (m : Multipart) (ps : List Part) → ¬ (collect s3 m ps ≡ err out_of_fuel)
unfolding collect
collect-total s3 m [] e = cc
collect-total s3 m (p ∷ ps) e =
    elim (Bool-cases (s3.upload_part (remove_at (s3.next_finished m.joins) p ps).0)) [
      | inl t ↦ cc (rw t at e)
      | inr f ↦ cc (rw f at e)
    ]

length-remove_at : (i : ℕ) (p : Part) (ps : List Part) → length (remove_at i p ps).1 ≡ length ps
length-remove_at i p [] = refl
length-remove_at zero p (q ∷ qs) = refl
length-remove_at (suc i) p (q ∷ qs) = ap suc (length-remove_at i q qs)

-- Collecting a part takes it off those in flight.
collect-less :
    (s3 : S3) (m : Multipart) (ps : List Part) {n : Multipart}
    → collect s3 m ps ≡ ok n
    → length n.in_flight < length ps
unfolding collect
collect-less s3 m [] e = cc
collect-less s3 m (p ∷ ps) {n} e =
    let i = s3.next_finished m.joins in
    elim (Bool-cases (s3.upload_part (remove_at i p ps).0)) [
      | inr f ↦ cc (rw f at e)
      | inl t ↦
          subst (λ (x : Multipart). length x.in_flight < suc (length ps)) (ok-injective (rw t at e))
            (omega (arith, length-remove_at i p ps))
    ]

-- The loops that wait for room and for the last part end: each turn takes a part off, and with none
-- left in flight a further turn is an error.
make_room-total :
    (s3 : S3) (fuel limit : ℕ) (m : Multipart)
    → length m.in_flight < fuel
    → ¬ (make_room s3 fuel limit m ≡ err out_of_fuel)
unfolding make_room
make_room-total s3 zero limit m b e = absurd (omega (arith, b))
make_room-total s3 (suc fuel) limit m b e = elim (Bool-cases (leb limit (length m.in_flight))) [
  | inr f ↦ cc (rw f at e)
  | inl t ↦ elim (>>=-eq-err (collect s3 m m.in_flight) (make_room s3 fuel limit) (rw t at e)) [
    | inl l ↦ collect-total s3 m m.in_flight l
    | inr (n, first, rest) ↦
        make_room-total s3 fuel limit n
          (omega (arith, b, collect-less s3 m m.in_flight {n = n} first)) rest
  ]
]

map_err-client : {A : Type 0} (r : Result A BodyError) → ¬ (map_err client r ≡ err out_of_fuel)
map_err-client (ok a) e = cc
map_err-client (err x) e = cc

-- A full part leaves less to read.
fill-less :
    (size : ℕ) (r r' : Reader) (part : Text)
    → Filled size [] r.taken (unread r) (is_clean r.body) part r'
    → length (unread r) ≡ length part + length (unread r')
fill-less size r r' part f =
    sym (ap length f.kept)
    ∙ length-append f.got (unread r')
    ∙ ap (λ t. length t + length (unread r')) (sym f.into)

parts_loop-total :
    (s3 : S3) (fuel size limit k : ℕ) (m : Multipart) (r : Reader)
    → 1 ≤ size
    → length (unread r) < fuel
    → ¬ (parts_loop s3 fuel size limit k m r ≡ err out_of_fuel)
unfolding parts_loop
parts_loop-total s3 zero size limit k m r positive b e = absurd (omega (arith, b))
parts_loop-total s3 (suc fuel) size limit k m r positive b e =
    elim (>>=-eq-err (make_room s3 (suc (length m.in_flight)) limit m) _ e) [
      | inl l ↦ make_room-total s3 (suc (length m.in_flight)) limit m (omega arith) l
      | inr (room, made, e2) ↦ elim (>>=-eq-err (map_err client (fill size [] r)) _ e2) [
        | inl l ↦ map_err-client (fill size [] r) l
        | inr (filled, took, e3) ↦ elim (Bool-cases (length filled.0 == 0)) [
          | inl t ↦ cc (rw t at e3)
          | inr n ↦ elim (Bool-cases (ltb (length filled.0) size)) [
            | inl t ↦ cc (rw (n, t) at e3)
            | inr g ↦
                let f : Filled size [] r.taken (unread r) (is_clean r.body) filled.0 filled.1 =
                  fill-Filled size [] r {p = filled} (omega arith)
                    (map_err-ok client (fill size [] r) took) in
                parts_loop-total s3 fuel size limit (k + 1) (spawn s3 (k + 1) filled.0 room)
                  filled.1 positive (ground (arith, n, b, fill-less size r filled.1 filled.0 f))
                  (rw (n, g) at e3)
          ]
        ]
      ]
    ]

multipart_body-total :
    (s3 : S3) (fuel size limit : ℕ) (m : Multipart) (r : Reader)
    → 1 ≤ size
    → length (unread r) < fuel
    → ¬ (multipart_body s3 fuel size limit m r ≡ err out_of_fuel)
unfolding multipart_body
multipart_body-total s3 fuel size limit m r positive b e =
    elim (>>=-eq-err (parts_loop s3 fuel size limit 1 m r) _ e) [
      | inl l ↦ parts_loop-total s3 fuel size limit 1 m r positive b l
      | inr (sent, looped, e2) ↦
          elim (>>=-eq-err (make_room s3 (suc (length sent.0.in_flight)) 1 sent.0) _ e2) [
            | inl l ↦ make_room-total s3 (suc (length sent.0.in_flight)) 1 sent.0 (omega arith) l
            | inr (drained, made, e3) ↦
                elim (Bool-cases (s3.complete (sort_by earlier drained.completed))) [
                  | inl t ↦ cc (rw t at e3)
                  | inr n ↦ cc (rw n at e3)
                ]
          ]
    ]

-- What a put answers is not that the fuel ran out.
Answered : Result (Text × ℕ) PutError × Effect → Type 0
Answered (r, effect) = ¬ (r ≡ err out_of_fuel)

ended-Answered :
    (s3 : S3) (result : Result (List Part × Reader) PutError)
    → ¬ (result ≡ err out_of_fuel)
    → Answered (multipart_ended s3 result)
unfolding Answered
ended-Answered s3 (ok done) n e = cc
ended-Answered s3 (err x) n e = n (ap err (err-injective e))

shape-Answered :
    (s3 : S3) (fuel size limit : ℕ) (first : Text) (r : Reader)
    → 1 ≤ size
    → length (unread r) < fuel
    → Answered (put_first s3 fuel size limit first r)
unfolding Answered multipart_body
shape-Answered s3 fuel size limit first r positive b e =
    elim (Bool-cases (ltb (length first) size)) [
      | inl t ↦ elim (Bool-cases (s3.put first)) [
        | inl y ↦ cc (rw (t, y) at e)
        | inr n ↦ cc (rw (t, n) at e)
      ]
      | inr g ↦ elim (Bool-cases s3.create) [
        | inr n ↦ cc (rw (g, n) at e)
        | inl y ↦
            ended-Answered s3 _
              (multipart_body-total s3 fuel size limit
                (record {
                  completed = [];
                  in_flight = record { number = 1; bytes = first } ∷ [];
                  joins = 0;
                })
                r positive b)
              (rw (g, y) at e)
      ]
    ]

module _ (s3 : S3) (fuel size limit hint : ℕ) (positive : 1 ≤ size) (body : List Item) where
  checked-Answered :
      (first : Text) (r : Reader)
      → length (bytes body) < fuel
      → Filled (reserve_of s3 hint size) [] [] (bytes body) (is_clean body) first r
      → (result : Result (Bool × Reader) BodyError)
      → checked s3 (reserve_of s3 hint size) size first r ≡ result
      → Answered (put_checked s3 fuel size limit first result)
  unfolding Answered reserve
  checked-Answered first r b f (err x) l e = cc
  checked-Answered first r b f (ok (true, r')) l e = cc
  checked-Answered first r b f (ok (false, r')) l e =
      let part = checked-Begun s3 fuel size limit hint positive body first r r' f l in
      shape-Answered s3 fuel size limit first r' positive
        (omega (arith, b, ap length part.rest, length-append first (unread r'))) e

  filled-Answered :
      (result : Result (Text × Reader) BodyError)
      → length (bytes body) < fuel
      → fill (reserve_of s3 hint size) [] (new_reader body) ≡ result
      → Answered (put_filled s3 fuel size limit (reserve_of s3 hint size) result)
  unfolding Answered
  filled-Answered (err x) b l e = cc
  filled-Answered (ok (first, r)) b l e =
      checked-Answered first r b
        (fill-Filled (reserve_of s3 hint size) [] (new_reader body) {p = (first, r)} (omega arith)
          l)
        _ refl e

-- For a part size of at least one, and fuel for more parts than the body has bytes, `put_streaming`
-- comes to an end, whatever the body, the limit on the parts in flight, and S3 do: its loop over the
-- parts, and within it the loops that wait for room and for the parts left in flight.
pub put_streaming-answers :
    (s3 : S3) (fuel size limit hint : ℕ) (body : List Item)
    → 1 ≤ size
    → length (bytes body) < fuel
    → ¬ ((put_streaming s3 fuel size limit hint body).0 ≡ err out_of_fuel)
unfolding put_streaming Answered
put_streaming-answers s3 fuel size limit hint body positive b =
    filled-Answered s3 fuel size limit hint positive body _ b refl
