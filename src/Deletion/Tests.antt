-- ===== src/Deletion/Tests.antt =====
-- crates/garret-pusher/src/deletion.rs: a busy path among three.
use garret.Common.{◌≡◌, refl, List, [], ◌∷◌, Text, codes, text_eq}
use garret.Common.Result.{err}
use garret.InFlight.{State, Busy, claim_delete, take, drop_claim}
use garret.InFlight.Claims.{upload, lookup, remove}
use garret.Deletion.{claim_all, claim_each, drop_all}
use garret.Deletion.Claims.{AllOrNone, claim_all_lem}

abbrev uploading_b : State
uploading_b = record { claims = (codes "b", upload) ∷ []; uploads = 1; quiescers = 0 }

abbrev three : List Text
three = codes "a" ∷ codes "b" ∷ codes "c" ∷ []

refused_whole : claim_all uploading_b three ≡ (uploading_b, err (codes "b", Busy.uploading))
unfolding claim_all claim_each claim_delete take drop_all drop_claim lookup remove text_eq
refused_whole = refl

claim_all_lem_example : AllOrNone uploading_b three (claim_all uploading_b three)
claim_all_lem_example = claim_all_lem uploading_b three
