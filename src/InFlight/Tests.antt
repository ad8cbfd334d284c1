-- ===== src/InFlight/Tests.antt =====
-- crates/garret-server/src/inflight.rs on two paths.
use garret.Common.{◌≡◌, ◌≢◌, refl, true, some, List, [], ◌∷◌, Text, codes, text_eq}
use garret.Common.Result.{err}
use garret.InFlight.{Refused, new, take, claim, claim_delete, quiesce, drop_claim, drained}
use garret.InFlight.Claims.{lookup, remove, upload}
use garret.InFlight.Exclusive.{
  World, Call, uploads, deletes, drops, shuts, step, run, start, IsOwned, run-start-IsOwned,
  run-IsQuiet,
}

abbrev a : Text
a = codes "a"

abbrev b : Text
b = codes "b"

abbrev busy_day : List Call
busy_day = uploads a ∷ uploads a ∷ deletes b ∷ shuts ∷ uploads b ∷ drops a ∷ []

abbrev quiet : World
quiet = run start (uploads a ∷ shuts ∷ drops a ∷ [])

second_upload_refused :
    claim (record { claims = (a, upload) ∷ []; uploads = 1; quiescers = 0 }) a
    ≡ err Refused.uploading
unfolding claim take lookup text_eq
second_upload_refused = refl

busy_day_held : (run start busy_day).held ≡ b ∷ []
unfolding run step claim claim_delete take quiesce drop_claim lookup remove text_eq start new
busy_day_held = refl

run-start-IsOwned_example : IsOwned (run start busy_day)
run-start-IsOwned_example = run-start-IsOwned busy_day

run-IsQuiet_example :
    (drained (run quiet (uploads b ∷ deletes a ∷ [])).state ≡ true)
    × ((h : Text) → lookup h (run quiet (uploads b ∷ deletes a ∷ [])).state.claims ≢ some upload)
unfolding run step claim claim_delete take quiesce drop_claim lookup remove text_eq start new
run-IsQuiet_example =
    run-IsQuiet quiet (uploads b ∷ deletes a ∷ [])
      (run-start-IsOwned (uploads a ∷ shuts ∷ drops a ∷ [])) ((λ e. cc), refl) tt
