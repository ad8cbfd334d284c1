-- ===== src/StorePath/Frame.antt =====
-- `Preamble::to_framed` and `preamble_end` of crates/garret-common/src/lib.rs, and `take_preamble`
-- of crates/garret-pusher/src/main.rs. The JSON of a preamble is serde's, so it is bytes here.
pub mod Exact
use garret.Common.{
  ℕ, suc, ◌+◌, ◌-◌, ◌*◌, ◌/◌, ◌%◌, ◌^◌, ◌≤◌, ◌<◌, ◌≡◌, refl, Bool, true, false, Option, none, some,
  List, [], ◌∷◌, ◌++◌, arith, Text, ltb, leb, if◌then◌else◌, length, take, drop, length-append, All,
}
use garret.Common.Result.{Result, ok, err}
use garret.Storage.Stream.{Item, BodyError, stalled, broken}

-- `u32::to_le_bytes` and `u32::from_le_bytes`.
abbrev pub to_le_bytes : ℕ → Text
to_le_bytes n = (n % 256) ∷ (n / 256 % 256) ∷ (n / 65536 % 256) ∷ (n / 16777216 % 256) ∷ []

abbrev pub from_le_bytes : ℕ → ℕ → ℕ → ℕ → ℕ
from_le_bytes a b c d = a + 256 * b + 65536 * c + 16777216 * d

-- `json.len() as u32` keeps the low 32 bits.
unfoldable pub to_framed : Text → Text
to_framed json = to_le_bytes (length json % 2 ^ 32) ++ json

unfoldable pub end_of : ℕ → ℕ → ℕ → Result (Option ℕ) ℕ
end_of len have max =
    if ltb max len then err len else ok (if leb len have then some (4 + len) else none)

unfoldable pub preamble_end : Text → ℕ → Result (Option ℕ) ℕ
unfolding end_of
preamble_end (a ∷ b ∷ c ∷ d ∷ rest) max = end_of (from_le_bytes a b c d) (length rest) max
preamble_end (a ∷ b ∷ c ∷ []) max = ok none
preamble_end (a ∷ b ∷ []) max = ok none
preamble_end (a ∷ []) max = ok none
preamble_end [] max = ok none

-- crates/garret-pusher/src/main.rs: `MAX_PREAMBLE`.
abbrev pub max_preamble : ℕ
max_preamble = 1024 * 1024

pub data Refusal : Type 0 where
  implausible_length bad_json body_stalled body_broken body_ended : Refusal

-- `serde_json::from_slice` is a parameter.
module _ {ℓ} {P : Type ℓ} (from_json : Text → Option P) where
  abbrev parsed : Text → ℕ → Option P → Result (Option (P × Text)) Refusal
  parsed buf end none = err bad_json
  parsed buf end (some p) = ok (some (p, drop end buf))

  -- The new buffer is returned with the preamble.
  unfoldable pub take_preamble : Text → Result (Option (P × Text)) Refusal
  take_preamble buf = elim (preamble_end buf max_preamble) [
    | ok (some end) ↦ parsed buf end (from_json (take (end - 4) (drop 4 buf)))
    | ok none ↦ ok none
    | err len ↦ err implausible_length
  ]

  abbrev started :
      Result (Option (P × Text)) Refusal
      → Result (P × Text × List Item) Refusal
      → List Item
      → Result (P × Text × List Item) Refusal
  started (ok (some (p, leftover))) more chunks = ok (p, leftover, chunks)
  started (ok none) more chunks = more
  started (err e) more chunks = err e

  -- How a body that fails is refused.
  abbrev refused_body : BodyError → Refusal
  refused_body stalled = body_stalled
  refused_body broken = body_broken

  -- The loop of `store_upload` that reads the preamble: the chunks that are still to come, each a
  -- text, a stall or a transport error, and what has arrived. The result has the bytes behind the preamble
  -- and the chunks that were not read.
  unfoldable pub read_preamble : Text → List Item → Result (P × Text × List Item) Refusal
  read_preamble head [] = started (take_preamble head) (err body_ended) []
  read_preamble head (err e ∷ chunks) =
      started (take_preamble head) (err (refused_body e)) (err e ∷ chunks)
  read_preamble head (ok chunk ∷ chunks) =
      let more = read_preamble (head ++ chunk) chunks in
      started (take_preamble head) more (ok chunk ∷ chunks)
