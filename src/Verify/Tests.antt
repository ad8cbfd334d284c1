-- ===== src/Verify/Tests.antt =====
-- crates/garret-pusher/src/verify.rs: the check, run on small streams with a decoder that passes on what
-- it is given and takes each call for a frame.
use garret.Common.{arith, ◌≡◌, ◌⊎◌, refl, true, some, List, [], ◌∷◌, Text, length, codes, text_eq}
use garret.Common.Result.{ok, err}
use garret.Storage.Stream.{Item, S3, completed_parts, put_streaming, broken}
use garret.Storage.Stream.Stored.{StoredAs}
use garret.Storage.Stream.Fill.{bytes}
use garret.StorePath.Base32.{nix_base32_encode, groups_below, nix_base32_len, digit, group}
use garret.Verify.{Zstd, Reason, refuse, wrong_hash, over_size, new_checker, feed, finish_check}
use garret.Verify.Nar.{
  Outcome, accepted, refused, offloaded, Event, poll_next, turn_taken, happen_all, poll,
  thread_turn, verified,
}
use garret.Verify.Schedules.{happen_all-IsInline}
use garret.Verify.Loop.{Progresses, verified-total}
use garret.Verify.Ends.{polls_and_turns, offload-answers}
use garret.Verify.Waiting.{left_to_do}
use garret.Verify.Decoding.{IsClaimed}
use garret.Verify.Inline.{chunks}
use garret.Verify.Stored.{put_verified-IsClaimed}

abbrev plain : Zstd (Unit {0})
plain = record {
  start = tt;
  run = λ d src. some (record { consumed = length src; output = src; hint = 0; decoder = tt });
  compress_bound = λ n. n;
  sha256 = λ nar. nar;
}

-- `sha256:66qk1`, of the bytes `abc`.
abbrev hash_of_abc : Text
hash_of_abc = codes "sha256:66qk1"

abbrev abc : List Item
abc = ok (0x61 ∷ 0x62 ∷ []) ∷ ok (0x63 ∷ []) ∷ []

abbrev abd : List Item
abd = ok (0x61 ∷ 0x62 ∷ []) ∷ ok (0x64 ∷ []) ∷ []

passes : verified plain (new_checker plain hash_of_abc 3) abc ≡ (abc, some accepted)
unfolding verified feed finish_check nix_base32_encode groups_below nix_base32_len digit group
    text_eq
passes = refl

corrupted :
    verified plain (new_checker plain hash_of_abc 3) abd
    ≡ (ok (0x61 ∷ 0x62 ∷ []) ∷ ok (0x64 ∷ []) ∷ err broken ∷ [], some (refused (refuse wrong_hash)))
unfolding verified feed finish_check nix_base32_encode groups_below nix_base32_len digit group
    text_eq
corrupted = refl

too_long :
    verified plain (new_checker plain hash_of_abc 2) abc
    ≡ (ok (0x61 ∷ 0x62 ∷ []) ∷ err broken ∷ [], some (refused (refuse over_size)))
unfolding verified feed finish_check nix_base32_encode groups_below nix_base32_len digit group
    text_eq
too_long = refl

abbrev in_turn : List Event
in_turn = poll_next ∷ poll_next ∷ turn_taken ∷ poll_next ∷ turn_taken ∷ turn_taken ∷ poll_next ∷ []

happen_all-IsInline_example : verified plain (new_checker plain hash_of_abc 3) abc ≡ (
  (happen_all plain in_turn (offloaded (new_checker plain hash_of_abc 3) abc)).passed,
  some accepted,
)
unfolding poll thread_turn feed finish_check nix_base32_encode groups_below nix_base32_len digit
    group text_eq
happen_all-IsInline_example =
    happen_all-IsInline plain (new_checker plain hash_of_abc 3) abc in_turn accepted refl

plain-Progresses : Progresses plain
unfolding Progresses
plain-Progresses d src call e =
    let taken : call.consumed ≡ length src = cc in
    (omega (arith, taken), λ b. absurd (omega (arith, taken, b)))

verified-total_example :
    ((verified plain (new_checker plain hash_of_abc 3) abd).1 ≡ some accepted)
    ⊎ ((reason : Reason) × ((verified plain (new_checker plain hash_of_abc 3) abd).1
          ≡ some (refused (refuse reason))))
verified-total_example = verified-total plain hash_of_abc 3 abd plain-Progresses

offload-answers_example :
    (o : Outcome) × ((polls_and_turns plain
        (left_to_do (offloaded (new_checker plain hash_of_abc 3) abc))
        (offloaded (new_checker plain hash_of_abc 3) abc)).outcome
      ≡ some o)
offload-answers_example = offload-answers plain (offloaded (new_checker plain hash_of_abc 3) abc)

abbrev willing : S3
willing = record {
  put = λ bytes. true;
  create = true;
  upload_part = λ part. true;
  complete = λ parts. true;
  next_finished = λ joins. 1;
}

put_verified-IsClaimed_example :
    ((verified plain (new_checker plain hash_of_abc 3) abc).1 ≡ some accepted)
    × IsClaimed plain hash_of_abc 3 (chunks abc)
    × (bytes abc ≡ bytes abc)
    × (length (bytes abc) ≡ length (bytes abc))
    × StoredAs willing 2 2 (bytes abc) (
        completed_parts (
          record { number = 1; bytes = 0x61 ∷ 0x62 ∷ [] }
          ∷ record { number = 2; bytes = 0x63 ∷ [] }
          ∷ []))
unfolding put_streaming verified feed finish_check nix_base32_encode groups_below nix_base32_len
    digit group text_eq
put_verified-IsClaimed_example =
    put_verified-IsClaimed plain willing 9 2 2 hash_of_abc 3 abc (omega arith) refl
