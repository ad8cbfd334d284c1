-- ===== src/Storage/Stream.antt =====
-- crates/garret-server/src/storage.rs: `put_streaming`. The body is a list of chunks, of which one may
-- be the error that ends it; a stall is such an error. S3 is a record of answers: whether each request
-- succeeds, and which of the parts being uploaded is the next to finish_reader. SHA-256 is fed `taken`.
pub mod Fill
pub mod Sort
pub mod Parts
pub mod Cut
pub mod Turns
pub mod Loop
pub mod Stored
pub mod Enough
mod Tests
use garret.Common.{
  ℕ, zero, suc, ◌+◌, ◌-◌, Bool, true, false, ◌&&◌, Option, none, some, List, [], ◌∷◌, ◌++◌,
  if◌then◌else◌, Text, length, take, drop, ltb, leb, ◌==◌, min, max,
}
use garret.Common.Result.{Result, ok, err, ◌>>=◌, map_err}
use garret.Db.Schema.{sort_by}

-- `ClientBodyError`: a stall or a broken body.
pub data BodyError : Type 0 where
  stalled broken : BodyError

abbrev pub Item : Type 0
Item = Result Text BodyError

-- `BodyReader`; its hasher has seen `taken`, and `received` is the length of that.
pub record Reader : Type 0 where
  pub body : List Item
  pub carry : Option Text
  pub taken : Text

abbrev pub new_reader : List Item → Reader
new_reader body = record { body = body; carry = none; taken = [] }

-- One chunk into a part with room: what is over becomes the carry. The rest is the loop's next turn.
abbrev pub split_or :
    ℕ
    → Text
    → Text
    → Text
    → List Item
    → Result (Text × Reader) BodyError
    → Result (Text × Reader) BodyError
split_or cap part taken chunk body next =
    let room = cap - length part in
    if ltb room (length chunk)
    then ok (
      part ++ take room chunk,
      record { body = body; carry = some (drop room chunk); taken = taken ++ take room chunk },
    )
    else next

-- The `while` loop of `fill`, without a carry.
unfoldable pub fill_body : ℕ → Text → Text → List Item → Result (Text × Reader) BodyError
fill_body cap part taken [] = ok (part, record { body = []; carry = none; taken = taken })
fill_body cap part taken (err e ∷ body) =
    if ltb (length part) cap
    then err e
    else ok (part, record { body = err e ∷ body; carry = none; taken = taken })
fill_body cap part taken (ok chunk ∷ body) =
    let next = fill_body cap (part ++ chunk) (taken ++ chunk) body in
    if ltb (length part) cap
    then split_or cap part taken chunk body next
    else ok (part, record { body = ok chunk ∷ body; carry = none; taken = taken })

-- `fill`, of a part that holds `part`: the carry is the first chunk.
unfoldable pub fill : ℕ → Text → Reader → Result (Text × Reader) BodyError
unfolding fill_body
fill cap part r = elim r.carry [
  | none ↦ fill_body cap part r.taken r.body
  | some left ↦ fill_body cap part r.taken (ok left ∷ r.body)
]

-- `has_more`, without a carry: an empty chunk is skipped.
unfoldable pub more_in : Text → List Item → Result (Bool × Reader) BodyError
more_in taken [] = ok (false, record { body = []; carry = none; taken = taken })
more_in taken (err e ∷ body) = err e
more_in taken (ok [] ∷ body) = more_in taken body
more_in taken (ok (c ∷ chunk) ∷ body) =
    ok (true, record { body = body; carry = some (c ∷ chunk); taken = taken })

unfoldable pub has_more : Reader → Result (Bool × Reader) BodyError
unfolding more_in
has_more r = elim r.carry [
  | none ↦ more_in r.taken r.body
  | some left ↦ more_in r.taken (ok left ∷ r.body)
]

pub record Part : Type 0 where
  pub number : ℕ
  pub bytes : Text

pub record S3 : Type 0 where
  pub put : Text → Bool
  pub create : Bool
  pub upload_part : Part → Bool
  pub complete : List Part → Bool
  pub next_finished : ℕ → ℕ

pub data PutError : Type 0 where
  client : BodyError → PutError
  over_limit : PutError
  s3_failure : PutError
  out_of_fuel : PutError

-- `completed` and `in_flight` of `multipart_body`, and how many parts were collected.
pub record Multipart : Type 0 where
  pub completed : List Part
  pub in_flight : List Part
  pub joins : ℕ

-- The part at a place, or the last one, and the others.
abbrev pub remove_at : ℕ → Part → List Part → Part × List Part
remove_at i p [] = (p, [])
remove_at zero p (q ∷ qs) = (p, q ∷ qs)
remove_at (suc i) p (q ∷ qs) = let rest = remove_at i q qs in (rest.0, p ∷ rest.1)

-- The end of `put_streaming`: what S3 was left with.
pub data Effect : Type 0 where
  nothing : Effect
  put_object : Text → Effect
  completed_parts : List Part → Effect
  aborted : Effect

abbrev pub earlier : Part → Part → Bool
earlier p q = ltb p.number q.number

module _ (s3 : S3) where
  abbrev pub joined_part : Multipart → Part × List Part → Result Multipart PutError
  joined_part m (p, rest) =
      if s3.upload_part p
      then ok (record { completed = m.completed ++ p ∷ []; in_flight = rest; joins = m.joins + 1 })
      else err s3_failure

  -- `collect`.
  unfoldable pub collect : Multipart → List Part → Result Multipart PutError
  collect m [] = err s3_failure
  collect m (p ∷ ps) = joined_part m (remove_at (s3.next_finished m.joins) p ps)

  -- `while in_flight.len() >= limit`, on fuel for the parts in flight and one turn more.
  unfoldable pub make_room : ℕ → ℕ → Multipart → Result Multipart PutError
  unfolding collect
  make_room zero limit m = err out_of_fuel
  make_room (suc fuel) limit m =
      let next = collect m m.in_flight >>= make_room fuel limit in
      if leb limit (length m.in_flight) then next else ok m

  abbrev pub spawn : ℕ → Text → Multipart → Multipart
  spawn number part m = record m {
    in_flight = m.in_flight ++ record { number = number; bytes = part } ∷ [];
  }

  -- An empty part ends the loop, and so does one that is not full.
  abbrev pub next_part :
      ℕ
      → ℕ
      → Multipart × Reader
      → Multipart × Reader
      → Result (Multipart × Reader) PutError
      → Result (Multipart × Reader) PutError
  next_part len part_size stopped spawned more =
      if len == 0 then ok stopped else if ltb len part_size then ok spawned else more

  -- The `loop`, and the parts that it leaves in flight.
  unfoldable pub parts_loop :
      ℕ → ℕ → ℕ → ℕ → Multipart → Reader → Result (Multipart × Reader) PutError
  unfolding make_room fill
  parts_loop zero part_size limit number m r = err out_of_fuel
  parts_loop (suc fuel) part_size limit number m r = do
    room ← make_room (suc (length m.in_flight)) limit m
    filled ← map_err client (fill part_size [] r)
    let spawned = spawn (number + 1) filled.0 room
    let more = parts_loop fuel part_size limit (number + 1) spawned filled.1
    next_part (length filled.0) part_size (room, filled.1) (spawned, filled.1) more

  -- `multipart_body`: `while !in_flight.is_empty()` is the room for a limit of one.
  unfoldable pub multipart_body :
      ℕ → ℕ → ℕ → Multipart → Reader → Result (List Part × Reader) PutError
  unfolding parts_loop sort_by
  multipart_body fuel part_size limit m r = do
    sent ← parts_loop fuel part_size limit 1 m r
    drained ← make_room (suc (length sent.0.in_flight)) 1 sent.0
    let parts = sort_by earlier drained.completed
    if s3.complete parts then ok (parts, sent.1) else err s3_failure

  abbrev pub finish_reader : Reader → Text × ℕ
  finish_reader r = (r.taken, length r.taken)

  abbrev pub multipart_ended :
      Result (List Part × Reader) PutError → Result (Text × ℕ) PutError × Effect
  multipart_ended (err e) = (err e, aborted)
  multipart_ended (ok (parts, r)) = (ok (finish_reader r), completed_parts parts)

  abbrev pub put_whole : Text → Reader → Result (Text × ℕ) PutError × Effect
  put_whole first r =
      if s3.put first then (ok (finish_reader r), put_object first) else (err s3_failure, nothing)

  -- The shape that the first part decides.
  abbrev pub put_first : ℕ → ℕ → ℕ → Text → Reader → Result (Text × ℕ) PutError × Effect
  put_first fuel part_size limit first r =
      let started : Multipart = record {
        completed = [];
        in_flight = record { number = 1; bytes = first } ∷ [];
        joins = 0;
      } in
      let multipart =
        if s3.create
        then multipart_ended (multipart_body fuel part_size limit started r)
        else (err s3_failure, nothing) in
      if ltb (length first) part_size then put_whole first r else multipart

  -- `first_part_hint.clamp(1, part_size)`.
  abbrev pub reserve_of : ℕ → ℕ → ℕ
  reserve_of hint part_size = min (max hint 1) part_size

  -- A body that outgrows the hint is refused.
  abbrev pub checked : ℕ → ℕ → Text → Reader → Result (Bool × Reader) BodyError
  checked reserve part_size first r =
      if length first == reserve && ltb reserve part_size then has_more r else ok (false, r)

  abbrev pub put_checked :
      ℕ → ℕ → ℕ → Text → Result (Bool × Reader) BodyError → Result (Text × ℕ) PutError × Effect
  put_checked fuel part_size limit first (err e) = (err (client e), nothing)
  put_checked fuel part_size limit first (ok (true, r)) = (err over_limit, nothing)
  put_checked fuel part_size limit first (ok (false, r)) = put_first fuel part_size limit first r

  abbrev pub put_filled :
      ℕ → ℕ → ℕ → ℕ → Result (Text × Reader) BodyError → Result (Text × ℕ) PutError × Effect
  put_filled fuel part_size limit reserve (err e) = (err (client e), nothing)
  put_filled fuel part_size limit reserve (ok (first, r)) =
      put_checked fuel part_size limit first (checked reserve part_size first r)

  unfoldable pub put_streaming : ℕ → ℕ → ℕ → ℕ → List Item → Result (Text × ℕ) PutError × Effect
  unfolding fill has_more multipart_body
  put_streaming fuel part_size limit hint body =
      let reserve = reserve_of hint part_size in
      put_filled fuel part_size limit reserve (fill reserve [] (new_reader body))
