-- ===== src/StorePath/Base32/Value.antt =====
-- `nix_base32_encode` of crates/garret-common/src/lib.rs and the number that a byte string stands for.
use garret.Common.{
  ℕ, zero, suc, ◌+◌, ◌-◌, ◌*◌, ◌/◌, ◌%◌, ◌^◌, ◌≤◌, ◌<◌, ◌≡◌, refl, sym, ap, ◌∙◌, Bool, true, false,
  ◌&&◌, Option, none, some, List, [], ◌∷◌, arith, ◌==◌, ==_iff, Text, get_elem?, length, drop, All,
  all, dec_lt, &&-left, &&-right,
}
use garret.StorePath.Names.{nix_base32_alphabet, is_nix_base32, is_base32_digit}
use garret.StorePath.Base32.{nix_base32_len, carry, group, digit, groups_below, nix_base32_encode}
use garret.StorePath.Base32.Bits.{
  value, position, read_from, IsByte, tested, tested_sound, joined, shifted, value_split,
  get_elem?-lt-length, drop_past,
}

carry-none : (j : ℕ) → carry j none ≡ carry j (some 0)
carry-none zero = refl
carry-none (suc j) = omega arith

carry_same :
    (j next : ℕ) (o : Option ℕ)
    → ((c : ℕ) → o ≡ some c → c ≡ next)
    → (o ≡ none → next ≡ 0)
    → carry j o ≡ carry j (some next)
carry_same j next none same past = carry-none j ∙ ap (λ c. carry j (some c)) (sym (past refl))
carry_same j next (some c) same past = ap (λ c. carry j (some c)) (same c refl)

group_value :
    (bytes : List ℕ) (n : ℕ)
    → All IsByte bytes
    → n * 5 / 8 < length bytes
    → group bytes n ≡ some (shifted bytes n % 32)
unfolding group shifted
group_value bytes n ok h =
    let i = n * 5 / 8 in
    let j = n * 5 % 8 in
    let (b, split, small, same, _) = value_split i bytes ok in
    let (next, split', small', same', past') = value_split (suc i) bytes ok in
    let (c, here) = get_elem?-lt-length bytes i h in
    let cb : c ≡ b = same c here in
    let rest = value (drop (suc (suc i)) bytes) in
    let carried : carry j (get_elem? bytes (suc i)) ≡ carry j (some next) =
      carry_same j next (get_elem? bytes (suc i)) same' past' in
    let plus : i + 1 ≡ suc i = omega arith in
    rw (here, plus, carried, cb, joined j b next rest (omega arith) small small', ← split', ← split)

shift_div :
    (j b v w : ℕ)
    → j < 8
    → b < 256
    → v ≡ b + 256 * w
    → (j < 3 → v / 2 ^ (j + 5) ≡ v / 2 ^ j / 32) × (3 ≤ j → w / 2 ^ (j - 3) ≡ v / 2 ^ j / 32)
shift_div zero b v w hj hb e = (λ h. omega arith, λ h. absurd (omega arith))
shift_div (suc zero) b v w hj hb e = (λ h. omega arith, λ h. absurd (omega arith))
shift_div (suc (suc zero)) b v w hj hb e = (λ h. omega arith, λ h. absurd (omega arith))
shift_div (suc (suc (suc zero))) b v w hj hb e = (λ h. absurd (omega arith), λ h. omega arith)
shift_div (suc (suc (suc (suc zero)))) b v w hj hb e = (λ h. absurd (omega arith), λ h. omega arith)
shift_div (suc (suc (suc (suc (suc zero))))) b v w hj hb e =
    (λ h. absurd (omega arith), λ h. omega arith)
shift_div (suc (suc (suc (suc (suc (suc zero)))))) b v w hj hb e =
    (λ h. absurd (omega arith), λ h. omega arith)
shift_div (suc (suc (suc (suc (suc (suc (suc zero))))))) b v w hj hb e =
    (λ h. absurd (omega arith), λ h. omega arith)
shift_div (suc (suc (suc (suc (suc (suc (suc (suc j)))))))) b v w hj hb e = absurd (omega arith)

shifted-suc :
    (bytes : List ℕ) (n : ℕ) → All IsByte bytes → shifted bytes (suc n) ≡ shifted bytes n / 32
unfolding shifted
shifted-suc bytes n ok =
    let i = n * 5 / 8 in
    let j = n * 5 % 8 in
    let v = value (drop i bytes) in
    let w = value (drop (suc i) bytes) in
    let (b, split, small, _, _) = value_split i bytes ok in
    let halves = shift_div j b v w (omega arith) small split in
    elim (dec_lt (n * 5 % 8) 3) [
      | yes h ↦
          let e : suc n * 5 / 8 ≡ n * 5 / 8 = omega arith in
          let f : suc n * 5 % 8 ≡ n * 5 % 8 + 5 = omega arith in rw (e, f) (halves.0 h)
      | no h ↦
          let e : suc n * 5 / 8 ≡ suc (n * 5 / 8) = omega arith in
          let f : suc n * 5 % 8 ≡ n * 5 % 8 - 3 = omega arith in rw (e, f) (halves.1 (omega arith))
    ]

shifted-zero : (bytes : List ℕ) → shifted bytes 0 ≡ value bytes
unfolding shifted
shifted-zero bytes = omega arith

shifted_past : (bytes : List ℕ) (n : ℕ) → length bytes * 8 ≤ n * 5 → shifted bytes n ≡ 0
unfolding shifted
shifted_past bytes n h = rw (drop_past bytes (n * 5 / 8) (omega arith)) (omega arith)

len_bounds : (n : ℕ) → (nix_base32_len n * 5 < n * 8 + 5) × (n * 8 ≤ nix_base32_len n * 5)
unfolding nix_base32_len
len_bounds n = ground arith

-- Each digit of the alphabet, with its position.
is_digit : ℕ → Option ℕ → Bool
is_digit d none = false
is_digit d (some c) = position c nix_base32_alphabet == d && is_base32_digit c

digits_table : tested (λ d. is_digit d (get_elem? nix_base32_alphabet d)) 32 ≡ true
unfolding tested is_digit is_base32_digit
digits_table = refl

is_digit-some :
    (d : ℕ) (o : Option ℕ)
    → is_digit d o ≡ true
    → (c : ℕ) × (o ≡ some c) × (position c nix_base32_alphabet ≡ d) × (is_base32_digit c ≡ true)
unfolding is_digit
is_digit-some d none h = cc
is_digit-some d (some c) h =
    (c, refl, (==_iff _ d).0 (&&-left _ (is_base32_digit c) h), &&-right _ (is_base32_digit c) h)

digit_at :
    (d : ℕ)
    → d < 32
    → (c : ℕ) × (get_elem? nix_base32_alphabet d ≡ some c)
      × (position c nix_base32_alphabet ≡ d)
      × (is_base32_digit c ≡ true)
digit_at d h =
    is_digit-some d (get_elem? nix_base32_alphabet d)
      (tested_sound (λ k. is_digit k (get_elem? nix_base32_alphabet k)) 32 d h digits_table)

-- Reading the digits below `n` onto the number from group `n` up gives the whole number.
groups_below-read :
    (bytes : List ℕ) (n acc : ℕ)
    → All IsByte bytes
    → n * 5 < length bytes * 8 + 5
    → acc ≡ shifted bytes n
    → (s : Text) × (groups_below bytes n ≡ some s)
      × (length s ≡ n)
      × (all is_base32_digit s ≡ true)
      × (read_from acc s ≡ value bytes)
unfolding groups_below digit
groups_below-read bytes zero acc ok h e = ([], refl, refl, refl, e ∙ shifted-zero bytes)
groups_below-read bytes (suc n) acc ok h e =
    let d = shifted bytes n % 32 in
    let (c, found, pos, dig) = digit_at d (omega arith) in
    let next : acc * 32 + position c nix_base32_alphabet ≡ shifted bytes n =
      omega (arith, shifted-suc bytes n ok) in
    let (s, below, len, digs, read) =
      groups_below-read bytes n (acc * 32 + position c nix_base32_alphabet) ok (omega arith) next in
    (
      c ∷ s,
      rw (group_value bytes n ok (omega arith), found, below),
      ap suc len,
      rw (dig, digs),
      read,
    )

-- Every byte string is encoded, in `nix_base32_len` digits of the alphabet, and the digits read from
-- the left stand for the number that the bytes stand for, least significant byte first.
pub nix_base32_encode_lem :
    (bytes : List ℕ)
    → All IsByte bytes
    → (s : Text) × (nix_base32_encode bytes ≡ some s)
      × (length s ≡ nix_base32_len (length bytes))
      × (is_nix_base32 s ≡ true)
      × (read_from 0 s ≡ value bytes)
unfolding nix_base32_encode is_nix_base32
nix_base32_encode_lem bytes ok =
    groups_below-read bytes (nix_base32_len (length bytes)) 0 ok (len_bounds (length bytes)).0
      (sym (shifted_past bytes (nix_base32_len (length bytes)) (len_bounds (length bytes)).1))
