-- ===== src/Narinfo/Hash.antt =====
-- What `normalize_hash` of crates/garret-server/src/narinfo.rs answers.
use garret.Common.{
  some-injective, ◌≡◌, refl, sym, ap, ◌∙◌, true, ◌&&◌, Option, some, ◌++◌, Text, length, ◌==◌,
  ==_iff, &&-left, &&-right, All, inl, inr, Bool-cases, Option-cases,
}
use garret.StorePath.Names.{is_nix_base32}
use garret.StorePath.Base32.{nix_base32_len, sha256_nix32}
use garret.StorePath.Base32.Value.{nix_base32_encode_lem}
use garret.StorePath.Frame.Exact.{IsByte}
use garret.Narinfo.{sha256_colon, digest_of, of_32_bytes, normalize_hash}

-- Nix's spelling of a SHA-256.
pub record IsNormal (hash : Text) : Type 0 where
  pub digest : Text
  pub spelled : hash ≡ sha256_colon ++ digest
  pub long : length digest ≡ 52
  pub base32 : is_nix_base32 digest ≡ true

of_32_bytes-IsNormal :
    (bytes : Text) {hash : Text} → All IsByte bytes → of_32_bytes bytes ≡ some hash → IsNormal hash
unfolding sha256_nix32 nix_base32_len
of_32_bytes-IsNormal bytes {hash} small e = elim (Bool-cases (length bytes == 32)) [
  | inr f ↦ cc (rw f at e)
  | inl t ↦
      let (s, encoded, l, ok, _) = nix_base32_encode_lem bytes small in
      let long : length s ≡ 52 = l ∙ ap nix_base32_len ((==_iff (length bytes) 32).0 t) in
      let spelled : hash ≡ sha256_colon ++ s = some-injective (sym (rw (t, encoded) at e)) in
      record { digest = s; spelled = spelled; long = long; base32 = ok }
]

-- Whatever is accepted comes out as `sha256:` and 52 digits, whether it came in as base32 or as
-- base64, and normalizing it again does not change it; base64 decodes to bytes.
pub normalize_hash-IsNormal :
    (decode : Text → Option Text) (hash : Text) {result : Text}
    → ((text bytes : Text) → decode text ≡ some bytes → All IsByte bytes)
    → normalize_hash decode hash ≡ some result
    → IsNormal result × (normalize_hash decode result ≡ some result)
unfolding normalize_hash nix_base32_len
normalize_hash-IsNormal decode hash {result} small e =
    let v = normal hash {result = result} e in (v, again v)
  where
    normal :
        (hash : Text) {result : Text} → normalize_hash decode hash ≡ some result → IsNormal result
    normal hash e = elim (Option-cases (digest_of hash)) [
      | inl n ↦ cc (rw n at e)
      | inr (d, s) ↦ elim (Bool-cases (length d == 52 && is_nix_base32 d)) [
        | inl t ↦ record {
          digest = d;
          spelled = some-injective (sym (rw (s, t) at e));
          long = (==_iff (length d) 52).0 (&&-left (length d == 52) (is_nix_base32 d) t);
          base32 = &&-right (length d == 52) (is_nix_base32 d) t;
        }
        | inr f ↦ elim (Option-cases (decode d)) [
          | inl n ↦ cc (rw (s, f, n) at e)
          | inr (bytes, b) ↦ of_32_bytes-IsNormal bytes (small d bytes b) (rw (s, f, b) at e)
        ]
      ]
    ]

    again : {result : Text} → IsNormal result → normalize_hash decode result ≡ some result
    again {result} v = rw (v.spelled, v.long, v.base32) refl
