-- ===== src/StorePath/Files.antt =====
-- crates/garret-common/src/wire.rs and crates/garret-server/src/storage.rs: the file names of the
-- substituter, and the blob keys.
use garret.Common.{
  bind, bind-eq-some, ◌≡◌, ◌≢◌, ◌↔◌, refl, Option, none, some, [], ◌∷◌, ◌++◌, Text, codes,
}
use garret.StorePath.Split.{
  strip_prefix, strip_suffix, strip_prefix-append, strip_suffix-append, strip_prefix_sound,
  strip_suffix_sound,
}

abbrev pub narinfo_suffix : Text
narinfo_suffix = codes ".narinfo"

abbrev pub nar_suffix : Text
nar_suffix = codes ".nar.zst"

abbrev nar_dir : Text
nar_dir = codes "nar/"

unfoldable pub narinfo_file : Text → Text
narinfo_file hash = hash ++ narinfo_suffix

unfoldable pub narinfo_hash : Text → Option Text
narinfo_hash file = strip_suffix narinfo_suffix file

unfoldable pub nar_url : Text → Text
nar_url hash = nar_dir ++ hash ++ nar_suffix

unfoldable pub nar_file_hash : Text → Option Text
nar_file_hash file = strip_suffix nar_suffix file

unfoldable pub key_for : Text → Text
key_for hash = nar_dir ++ hash ++ nar_suffix

abbrev not_empty : Text → Option Text
not_empty [] = none
not_empty (c ∷ h) = some (c ∷ h)

unfoldable pub hash_for : Text → Option Text
hash_for key = bind (bind (strip_prefix nar_dir key) (strip_suffix nar_suffix)) not_empty

pub hash_for-key_for : (h : Text) → h ≢ [] → hash_for (key_for h) ≡ some h
unfolding hash_for key_for
hash_for-key_for [] n = absurd (n refl)
hash_for-key_for (c ∷ h) n =
    rw (strip_prefix-append nar_dir ((c ∷ h) ++ nar_suffix), strip_suffix-append (c ∷ h) nar_suffix)

not_empty_sound : (o : Text) {h : Text} → not_empty o ≡ some h → (o ≡ h) × (h ≢ [])
not_empty_sound [] e = cc
not_empty_sound (c ∷ o) e = (cc, λ z. cc)

-- A key names a blob exactly when it is the key of a hash that is not empty, and then of that hash.
pub hash_for_iff : (key h : Text) → (hash_for key ≡ some h) ↔ ((key ≡ key_for h) × (h ≢ []))
unfolding hash_for key_for
hash_for_iff key h = (parsed, λ e. rw e.0 (hash_for-key_for h e.1))
  where
    parsed : hash_for key ≡ some h → (key ≡ key_for h) × (h ≢ [])
    parsed e =
        let (inner, ie, ne) =
          bind-eq-some (bind (strip_prefix nar_dir key) (strip_suffix nar_suffix)) not_empty e in
        let (rest, pe, se) = bind-eq-some (strip_prefix nar_dir key) (strip_suffix nar_suffix) ie in
        let (same, full) = not_empty_sound inner ne in
        (cc (strip_prefix_sound nar_dir key pe, strip_suffix_sound nar_suffix rest se), full)

-- The narinfo's file name comes back as its hash, and so does the file that the NAR's URL names
-- under `nar/`.
pub names_round_trip :
    (h : Text)
    → (narinfo_hash (narinfo_file h) ≡ some h)
      × ((file : Text) × (nar_url h ≡ nar_dir ++ file) × (nar_file_hash file ≡ some h))
unfolding narinfo_hash narinfo_file nar_url nar_file_hash
names_round_trip h = (
  strip_suffix-append h narinfo_suffix,
  (h ++ nar_suffix, refl, strip_suffix-append h nar_suffix),
)
