-- ===== src/StorePath/Names.antt =====
-- crates/garret-common/src/lib.rs: store path hashes and names.
pub mod Forms
use garret.Common.{
  bind, ℕ, ◌≡◌, ◌≢◌, ◌↔◌, refl, ap, sym, ◌∙◌, Bool, true, false, not, ◌&&◌, ◌||◌, Option, none,
  some, [], ◌∷◌, ◌++◌, arith, Text, codes, if◌then◌else◌, leb, ◌==◌, ==_iff, le→leb, &&-left,
  &&-right, length, take, drop, any, all, length-append, take-append, drop-append, inl, inr,
  Bool-cases,
}
use garret.StorePath.Split.{
  strip_prefix, split_once, before_first, after_last, trim_end, free_of, strip_prefix-append,
  strip_prefix_sound, split_once-append, split_once_sound, before_first-append, before_first_free,
  after_last-append, after_last_free, trim_end_free, trim_end-append, trim_end_last,
}

abbrev pub nix_base32_alphabet : Text
nix_base32_alphabet = codes "0123456789abcdfghijklmnpqrsvwxyz"

unfoldable pub is_base32_digit : ℕ → Bool
is_base32_digit c = any (λ a. a == c) nix_base32_alphabet

unfoldable pub is_nix_base32 : Text → Bool
unfolding is_base32_digit
is_nix_base32 s = all is_base32_digit s

unfoldable pub is_store_hash : Text → Bool
unfolding is_nix_base32
is_store_hash s = length s == 32 && is_nix_base32 s

abbrev between : ℕ → ℕ → ℕ → Bool
between lo hi c = leb lo c && leb c hi

abbrev is_ascii_alphanumeric : ℕ → Bool
is_ascii_alphanumeric c = between b'0' b'9' c || between b'A' b'Z' c || between b'a' b'z' c

unfoldable pub name_byte : ℕ → Bool
name_byte c = is_ascii_alphanumeric c || any (λ a. a == c) (codes "+-._?=")

-- `name_ok`.
unfoldable pub is_name : Text → Bool
unfolding name_byte
is_name name = between 1 211 (length name) && all name_byte name

-- The path of a store object, in a store directory.
abbrev pub path_of : Text → Text → Text → Text
path_of dir hash name = dir ++ b'/' ∷ (hash ++ b'-' ∷ name)

unfoldable pub store_basename : Text → Text → Option Text
store_basename path store_dir = bind (strip_prefix store_dir path) λ rest.
    bind (strip_prefix (b'/' ∷ []) rest) λ base.
      bind (split_once b'-' base)
        λ parts. if is_store_hash parts.0 && is_name parts.1 then some base else none

-- Whether a text can be cut before these bytes: the first one begins a character.
abbrev char_boundary : Text → Bool
char_boundary [] = true
char_boundary (c ∷ s) = not (between 128 191 c)

-- `base.get(..32).unwrap_or(base)`.
abbrev first_32 : Text → Text
first_32 base = if leb 32 (length base) && char_boundary (drop 32 base) then take 32 base else base

unfoldable pub hash_of_store_path : Text → Text
hash_of_store_path path = first_32 (after_last b'/' path)

unfoldable pub parse_store_hash : Text → Option Text
parse_store_hash text =
    let hash = before_first b'-' (after_last b'/' (trim_end b'/' text)) in
    if is_store_hash hash then some hash else none
