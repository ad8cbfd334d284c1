-- ===== src/Storage/Stream/Tests.antt =====
-- crates/garret-server/src/storage.rs: `put_streaming`, run on small bodies.
use garret.Common.{arith, ◌≡◌, refl, true, false, List, [], ◌∷◌}
use garret.Common.Result.{ok, err}
use garret.Storage.Stream.{
  Item, S3, client, stalled, over_limit, out_of_fuel, s3_failure, put_object, completed_parts,
  aborted, nothing, put_streaming,
}
use garret.Storage.Stream.Stored.{PutOutcome, put_streaming_lem}
use garret.Storage.Stream.Enough.{put_streaming-answers}

-- The last part to start is the first to finish.
abbrev willing : S3
willing = record {
  put = λ bytes. true;
  create = true;
  upload_part = λ part. true;
  complete = λ parts. true;
  next_finished = λ joins. 7;
}

abbrev full : S3
full = record willing { complete = λ parts. false }

abbrev seven : List Item
seven = ok (1 ∷ 2 ∷ 3 ∷ 4 ∷ []) ∷ ok [] ∷ ok (5 ∷ 6 ∷ 7 ∷ []) ∷ []

in_parts : put_streaming willing 9 3 2 9 seven ≡ (
  ok (1 ∷ 2 ∷ 3 ∷ 4 ∷ 5 ∷ 6 ∷ 7 ∷ [], 7),
  completed_parts (
      record { number = 1; bytes = 1 ∷ 2 ∷ 3 ∷ [] }
      ∷ record { number = 2; bytes = 4 ∷ 5 ∷ 6 ∷ [] }
      ∷ record { number = 3; bytes = 7 ∷ [] }
      ∷ []),
)
unfolding put_streaming
in_parts = refl

in_one_object :
    put_streaming willing 9 20 2 9 seven
    ≡ (ok (1 ∷ 2 ∷ 3 ∷ 4 ∷ 5 ∷ 6 ∷ 7 ∷ [], 7), put_object (1 ∷ 2 ∷ 3 ∷ 4 ∷ 5 ∷ 6 ∷ 7 ∷ []))
unfolding put_streaming
in_one_object = refl

over : put_streaming willing 9 20 2 6 seven ≡ (err over_limit, nothing)
unfolding put_streaming
over = refl

stalls :
    put_streaming willing 9 3 2 9 (ok (1 ∷ 2 ∷ 3 ∷ 4 ∷ []) ∷ err stalled ∷ [])
    ≡ (err (client stalled), aborted)
unfolding put_streaming
stalls = refl

not_completed : put_streaming full 9 3 2 9 seven ≡ (err s3_failure, aborted)
unfolding put_streaming
not_completed = refl

put_streaming_lem_example : PutOutcome willing 3 3 seven (put_streaming willing 9 3 2 9 seven)
put_streaming_lem_example = put_streaming_lem willing 9 3 2 9 seven (omega arith)

put_streaming-answers_example : ¬ ((put_streaming willing 9 3 2 9 seven).0 ≡ err out_of_fuel)
put_streaming-answers_example =
    put_streaming-answers willing 9 3 2 9 seven (omega arith) (omega arith)
