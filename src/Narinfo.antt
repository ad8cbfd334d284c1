-- ===== src/Narinfo.antt =====
-- crates/garret-server/src/narinfo.rs: the spelling of hashes, the signed fingerprint and
-- signing. Base64 and the keys' signatures are parameters.
pub mod Hash
use garret.Common.{
  bind, ℕ, zero, suc, ◌+◌, ◌/◌, ◌%◌, Bool, true, false, ◌&&◌, Option, none, some, List, [], ◌∷◌,
  ◌++◌, map, if◌then◌else◌, Text, codes, text_lt, any, ltb, ◌==◌, length,
}
use garret.Db.Schema.{Object, sort_by}
use garret.StorePath.Split.{strip_prefix}
use garret.StorePath.Names.{is_nix_base32}
use garret.StorePath.Base32.{nix_base32_len, sha256_nix32}
use garret.StorePath.Files.{nar_url}

abbrev pub sha256_colon : Text
sha256_colon = codes "sha256:"

abbrev pub or_else {ℓ} : {A : Type ℓ} → Option A → Option A → Option A
or_else none other = other
or_else (some a) other = some a

-- What follows `sha256:` or `sha256-`.
abbrev pub digest_of : Text → Option Text
digest_of hash = or_else (strip_prefix sha256_colon hash) (strip_prefix (codes "sha256-") hash)

abbrev pub of_32_bytes : Text → Option Text
of_32_bytes bytes = if length bytes == 32 then sha256_nix32 bytes else none

module _ (decode : Text → Option Text) where
  unfoldable pub normalize_hash : Text → Option Text
  unfolding nix_base32_len is_nix_base32 strip_prefix sha256_nix32
  normalize_hash hash = bind (digest_of hash) λ digest.
      if length digest == nix_base32_len 32 && is_nix_base32 digest
      then some (sha256_colon ++ digest)
      else bind (decode digest) of_32_bytes

-- The decimal digits of a number below 10 ^ 20, which an `i64` is.
abbrev digits : ℕ → ℕ → Text → Text
digits zero n acc = acc
digits (suc fuel) n acc =
    let next = digits fuel (n / 10) ((b'0' + n % 10) ∷ acc) in
    if ltb n 10 then (b'0' + n % 10) ∷ acc else next

unfoldable pub decimal : ℕ → Text
decimal n = digits 20 n []

unfoldable pub join : Text → List Text → Text
join sep [] = []
join sep (x ∷ []) = x
join sep (x ∷ y ∷ rest) = x ++ sep ++ join sep (y ∷ rest)

unfoldable pub fingerprint : Object → Text → Text
unfolding decimal join sort_by
fingerprint obj store_dir =
    let refs = sort_by text_lt (map (λ r. store_dir ++ b'/' ∷ r) obj.references) in
    join (codes ";") (
      codes "1" ∷ obj.store_path ∷ obj.nar_hash ∷ decimal obj.nar_size ∷ join (codes ",") refs ∷ [])

-- A key is what signs a fingerprint, with the name of the key in front.
unfoldable pub sign : Object → Text → List (Text → Text) → Option (List Text)
unfolding fingerprint
sign obj store_dir [] = none
sign obj store_dir (k ∷ keys) =
    let fp = fingerprint obj store_dir in some (map (λ key. key fp) (k ∷ keys))

-- `verify`: by the keys' tests of a signature on a fingerprint.
unfoldable pub verify : Object → Text → List (Text → Text → Bool) → Bool
unfolding fingerprint
verify obj store_dir keys =
    let fp = fingerprint obj store_dir in any (λ sig. any (λ k. k sig fp) keys) obj.sigs
