-- ===== src/StorePath/Frame/Exact.antt =====
-- The framing of crates/garret-common/src/lib.rs, over bytes that arrive in any pieces.
use mathlib.Core.List.{append_assoc, append-nil, flatten}
use garret.Common.{
  ℕ, suc, ◌+◌, ◌-◌, ◌/◌, ◌%◌, ◌^◌, ◌≤◌, ◌<◌, ◌≡◌, ◌≢◌, refl, sym, ap, ◌∙◌, Option, none, some, List,
  [], ◌∷◌, ◌++◌, map, arith, Text, length, take, drop, length-append, All, drop-append, take-append,
  take-append_le, drop-append_le, length-take, length-drop, inl, inr, ◌⊎◌,
}
use garret.Common.Result.{Result, ok, err}
use garret.StorePath.Frame.{
  from_le_bytes, to_framed, end_of, preamble_end, max_preamble, take_preamble, read_preamble,
}

from_le_bytes-to_le_bytes :
    (n : ℕ)
    → n < 2 ^ 32
    → from_le_bytes (n % 256) (n / 256 % 256) (n / 65536 % 256) (n / 16777216 % 256) ≡ n
from_le_bytes-to_le_bytes n h = omega arith

abbrev pub IsByte : ℕ → Type 0
IsByte c = c < 256

-- A framed preamble is found whole, whatever bytes follow it.
pub preamble_end-to_framed :
    (json rest : Text) (max : ℕ)
    → length json ≤ max
    → length json < 2 ^ 32
    → preamble_end (to_framed json ++ rest) max ≡ ok (some (4 + length json))
unfolding preamble_end to_framed
preamble_end-to_framed json rest max h small =
    let n = length json in
    let fits : n % 2 ^ 32 ≡ n = omega arith in
    rw (fits, from_le_bytes-to_le_bytes n small) (ground (arith, length-append json rest))

-- Once there is an answer, more bytes do not change it.
pub preamble_end-append :
    (buf more : Text) (max : ℕ)
    → preamble_end buf max ≢ ok none
    → preamble_end (buf ++ more) max ≡ preamble_end buf max
unfolding preamble_end
preamble_end-append (a ∷ b ∷ c ∷ d ∷ rest) more max h = ground (arith, length-append rest more)
preamble_end-append (a ∷ b ∷ c ∷ []) more max h = absurd (h refl)
preamble_end-append (a ∷ b ∷ []) more max h = absurd (h refl)
preamble_end-append (a ∷ []) more max h = absurd (h refl)
preamble_end-append [] more max h = absurd (h refl)

to_le_bytes-from_le_bytes :
    (a b c d n : ℕ)
    → IsByte a
    → IsByte b
    → IsByte c
    → IsByte d
    → n ≡ from_le_bytes a b c d
    → (n % 256 ≡ a)
      × (n / 256 % 256 ≡ b)
      × (n / 65536 % 256 ≡ c)
      × (n / 16777216 % 256 ≡ d)
      × (n % 2 ^ 32 ≡ n)
to_le_bytes-from_le_bytes a b c d n ha hb hc hd e = omega arith

read_back :
    (a b c d : ℕ) (rest : Text) (n : ℕ)
    → (IsByte a × IsByte b × IsByte c × IsByte d)
    → n ≡ from_le_bytes a b c d
    → n ≤ length rest
    → a ∷ b ∷ c ∷ d ∷ take n rest ≡ to_framed (take n rest)
unfolding to_framed
read_back a b c d rest n bytes e h =
    let size : length (take n rest) ≡ n = omega (arith, length-take n rest) in
    let digits = to_le_bytes-from_le_bytes a b c d n bytes.0 bytes.1 bytes.2 bytes.3 e in
    rw (size, digits.4, digits.0, digits.1, digits.2, digits.3)

-- Conversely, an answer is a frame: the bytes up to the end that is reported are exactly the
-- framing of the JSON between, and the JSON is within the limit.
pub preamble_end_exact :
    (buf : Text) (max : ℕ) {end : ℕ}
    → All IsByte buf
    → preamble_end buf max ≡ ok (some end)
    → (end ≤ length buf)
      × (end ≤ 4 + max)
      × (take end buf ≡ to_framed (take (end - 4) (drop 4 buf)))
unfolding preamble_end to_framed
preamble_end_exact (a ∷ b ∷ c ∷ d ∷ rest) max {end} bytes e =
    let n = from_le_bytes a b c d in
    let (size, within, whole) = answered n max rest end e in
    let back : suc (suc (suc (suc n))) - 4 ≡ n = omega arith in
    rw (size, back)
      (
        omega arith,
        omega arith,
        read_back a b c d rest n (bytes.0, bytes.1.0, bytes.1.1.0, bytes.1.1.1.0) refl whole,
      )
  where
    answered :
        (n max : ℕ) (rest : Text) (end : ℕ)
        → end_of n (length rest) max ≡ ok (some end)
        → (end ≡ suc (suc (suc (suc n)))) × (n ≤ max) × (n ≤ length rest)
    answered n max rest end e = ground arith
preamble_end_exact (a ∷ b ∷ c ∷ []) max bytes e = cc
preamble_end_exact (a ∷ b ∷ []) max bytes e = cc
preamble_end_exact (a ∷ []) max bytes e = cc
preamble_end_exact [] max bytes e = cc

length-to_framed : (json : Text) → length (to_framed json) ≡ 4 + length json
unfolding to_framed
length-to_framed json = omega arith

take-to_framed : (json nar : Text) → take (length json) (drop 4 (to_framed json ++ nar)) ≡ json
unfolding to_framed
take-to_framed json nar = take-append json nar

drop-to_framed : (json nar : Text) → drop (4 + length json) (to_framed json ++ nar) ≡ nar
drop-to_framed json nar = rw (← length-to_framed json) (drop-append (to_framed json) nar)

-- The end that is reported lies in the buffer.
preamble_end-le-length :
    (buf : Text) (max : ℕ) {end : ℕ}
    → preamble_end buf max ≡ ok (some end)
    → (4 ≤ end) × (end ≤ length buf)
unfolding preamble_end
preamble_end-le-length (a ∷ b ∷ c ∷ d ∷ rest) max e = ground arith
preamble_end-le-length (a ∷ b ∷ c ∷ []) max e = cc
preamble_end-le-length (a ∷ b ∷ []) max e = cc
preamble_end-le-length (a ∷ []) max e = cc
preamble_end-le-length [] max e = cc

Partial-cases : (r : Result (Option ℕ) ℕ) → (r ≡ ok none) ⊎ (r ≢ ok none)
Partial-cases (ok none) = inl refl
Partial-cases (ok (some end)) = inr (λ e. cc)
Partial-cases (err len) = inr (λ e. cc)

module _ {ℓ} {P : Type ℓ} (from_json : Text → Option P) (p : P) (json nar : Text) where
  -- Behind a head that already holds the frame.
  take_preamble_whole :
      (head more : Text)
      → head ++ more ≡ to_framed json ++ nar
      → preamble_end head max_preamble ≡ ok (some (4 + length json))
      → from_json json ≡ some p
      → (take_preamble from_json head ≡ ok (some (p, drop (4 + length json) head)))
        × (drop (4 + length json) head ++ more ≡ nar)
  unfolding take_preamble
  take_preamble_whole head more e found parses =
      let n = length json in
      let (_, whole) = preamble_end-le-length head max_preamble found in
      let back : 4 + n - 4 ≡ n = omega arith in
      let body : take n (drop 4 head) ≡ json =
        sym (take-append_le n (drop 4 head) more (omega (arith, length-drop 4 head)))
        ∙ ap (take n) (sym (drop-append_le 4 head more (omega arith)))
        ∙ ap (λ t. take n (drop 4 t)) e
        ∙ take-to_framed json nar in
      (
        rw (found, take_preamble, back, body, parses),
        sym (drop-append_le (4 + n) head more whole)
            ∙ ap (drop (4 + n)) e
            ∙ drop-to_framed json nar,
      )

  take_preamble_partial :
      (head : Text)
      → preamble_end head max_preamble ≡ ok none
      → take_preamble from_json head ≡ ok none
  unfolding take_preamble
  take_preamble_partial head e = rw (e, take_preamble)

  -- However a body that begins with a framed preamble is cut into chunks, when the JSON is within
  -- the limit and parses the preamble is read from it, and the bytes left over with the chunks that
  -- were not read are the NAR.
  pub read_preamble-to_framed :
      (head : Text) (chunks : List Text)
      → head ++ flatten chunks ≡ to_framed json ++ nar
      → length json ≤ max_preamble
      → from_json json ≡ some p
      → (leftover : Text) × (rest : List Text) × (read_preamble from_json head (map ok chunks)
          ≡ ok (p, leftover, map ok rest))
        × (leftover ++ flatten rest ≡ nar)
  unfolding read_preamble flatten
  read_preamble-to_framed head [] e fits parses =
      let all_in : head ≡ to_framed json ++ nar = sym (append-nil head) ∙ e in
      let found : preamble_end head max_preamble ≡ ok (some (4 + length json)) =
        ap (λ t. preamble_end t max_preamble) all_in
        ∙ preamble_end-to_framed json nar max_preamble fits (omega arith) in
      let (taken, rest) = take_preamble_whole head [] e found parses in
      (drop (4 + length json) head, [], rw (taken, read_preamble), rest)
  read_preamble-to_framed head (chunk ∷ chunks) e fits parses =
      let more = flatten (chunk ∷ chunks) in
      elim (Partial-cases (preamble_end head max_preamble)) [
        | inl waits ↦
            let (left, rest, result, tail) =
              read_preamble-to_framed (head ++ chunk) chunks
                (append_assoc head chunk (flatten chunks) ∙ e) fits parses in
            (left, rest, rw (take_preamble_partial head waits, read_preamble) result, tail)
        | inr answers ↦
            let found : preamble_end head max_preamble ≡ ok (some (4 + length json)) =
              sym (preamble_end-append head more max_preamble answers)
              ∙ ap (λ t. preamble_end t max_preamble) e
              ∙ preamble_end-to_framed json nar max_preamble fits (omega arith) in
            let (taken, tail) = take_preamble_whole head more e found parses in
            (drop (4 + length json) head, chunk ∷ chunks, rw (taken, read_preamble), tail)
      ]
