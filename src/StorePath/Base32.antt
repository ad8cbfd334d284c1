-- ===== src/StorePath/Base32.antt =====
-- crates/garret-common/src/lib.rs: Nix's base32, the least significant group last in the text.
pub mod Bits
pub mod Value
use Prim.Native.Nat.{bit_and, bit_or}
use garret.Common.{
  bind, ℕ, zero, suc, ◌+◌, ◌-◌, ◌*◌, ◌/◌, ◌%◌, ◌^◌, Option, none, some, List, [], ◌∷◌, ◌++◌,
  if◌then◌else◌, ◌==◌, Text, codes, get_elem?, length,
}
use garret.StorePath.Names.{nix_base32_alphabet}

unfoldable pub nix_base32_len : ℕ → ℕ
nix_base32_len bytes = if bytes == 0 then 0 else (bytes * 8 - 1) / 5 + 1

-- `next << (8 - j)` on a byte; nothing is carried into a group that starts on a byte, nor past the
-- last byte.
abbrev pub carry : ℕ → Option ℕ → ℕ
carry zero next = 0
carry (suc j) none = 0
carry (suc j) (some next) = next * 2 ^ (8 - suc j) % 256

-- The index of group `n` in the alphabet; `none` is an index out of bounds.
unfoldable pub group : List ℕ → ℕ → Option ℕ
group bytes n =
    let b = n * 5 in
    let i = b / 8 in
    let j = b % 8 in
    bind (get_elem? bytes i)
      λ byte. some (bit_and (bit_or (byte / 2 ^ j) (carry j (get_elem? bytes (i + 1)))) 0x1f)

unfoldable pub digit : List ℕ → ℕ → Option ℕ
digit bytes n = bind (group bytes n) λ d. get_elem? nix_base32_alphabet d

-- The digits of the groups below `n`, the highest first.
unfoldable pub groups_below : List ℕ → ℕ → Option Text
groups_below bytes zero = some []
groups_below bytes (suc n) = bind (digit bytes n) λ c. bind (groups_below bytes n) λ s. some (c ∷ s)

unfoldable pub nix_base32_encode : List ℕ → Option Text
nix_base32_encode bytes = groups_below bytes (nix_base32_len (length bytes))

unfoldable pub sha256_nix32 : List ℕ → Option Text
sha256_nix32 digest = bind (nix_base32_encode digest) λ s. some (codes "sha256:" ++ s)
