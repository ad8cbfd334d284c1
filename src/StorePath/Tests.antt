-- ===== src/StorePath/Tests.antt =====
-- crates/garret-common/src/lib.rs and wire.rs on real names.
use mathlib.Core.List.{flatten}
use garret.Common.{
  ◌≡◌, ◌↔◌, refl, true, Option, some, List, [], ◌∷◌, ◌++◌, map, Text, codes, length, arith,
}
use garret.Common.Result.{ok}
use garret.StorePath.Names.{
  is_base32_digit, is_nix_base32, is_store_hash, name_byte, is_name, store_basename, path_of,
}
use garret.StorePath.Names.Forms.{IsObject, store_basename_iff}
use garret.StorePath.Base32.{nix_base32_len, group, digit, groups_below, nix_base32_encode}
use garret.StorePath.Base32.Value.{nix_base32_encode_lem}
use garret.StorePath.Base32.Bits.{read_from, value}
use garret.StorePath.Frame.{to_framed, read_preamble}
use garret.StorePath.Frame.Exact.{read_preamble-to_framed}

abbrev dir : Text
dir = codes "/nix/store"

abbrev hash : Text
hash = codes "0c0a5kd1lrv5mnvk1fsfgkh93lqv7bgm"

abbrev name : Text
name = codes "hello-2.12"

hello-IsObject : IsObject hash name
unfolding is_store_hash is_nix_base32 is_base32_digit is_name name_byte
hello-IsObject = record { hash_ok = refl; name_ok = refl }

store_basename_iff_example :
    (store_basename (path_of dir hash name) dir ≡ some (hash ++ b'-' ∷ name)) ↔ (
      (h : Text) × (n : Text) × IsObject h n
      × (hash ++ b'-' ∷ name ≡ h ++ b'-' ∷ n)
      × (path_of dir hash name ≡ path_of dir h n))
store_basename_iff_example = store_basename_iff dir (path_of dir hash name) (hash ++ b'-' ∷ name)

encoded : nix_base32_encode (0x61 ∷ 0x62 ∷ 0x63 ∷ []) ≡ some (codes "66qk1")
unfolding nix_base32_encode groups_below digit group nix_base32_len
encoded = refl

nix_base32_encode_lem_example :
    (s : Text) × (nix_base32_encode (0x61 ∷ 0xff ∷ 0x63 ∷ []) ≡ some s)
    × (length s ≡ nix_base32_len 3)
    × (is_nix_base32 s ≡ true)
    × (read_from 0 s ≡ value (0x61 ∷ 0xff ∷ 0x63 ∷ []))
nix_base32_encode_lem_example =
    nix_base32_encode_lem (0x61 ∷ 0xff ∷ 0x63 ∷ []) (omega arith, (omega arith, (omega arith, tt)))

abbrev json : Text
json = codes "{}"

-- A parser that keeps the text.
abbrev from_json : Text → Option Text
from_json t = some t

read_preamble-to_framed_example :
    (leftover : Text) × (rest : List Text) × (read_preamble from_json
        (2 ∷ 0 ∷ [])
        (map ok ((0 ∷ 0 ∷ 123 ∷ []) ∷ (125 ∷ 110 ∷ []) ∷ []))
      ≡ ok (json, leftover, map ok rest))
    × (leftover ++ flatten rest ≡ codes "n")
unfolding to_framed flatten
read_preamble-to_framed_example =
    read_preamble-to_framed from_json json json (codes "n") (2 ∷ 0 ∷ [])
      ((0 ∷ 0 ∷ 123 ∷ []) ∷ (125 ∷ 110 ∷ []) ∷ []) refl (omega arith) refl
