-- ===== src/StorePath/Names/Forms.antt =====
-- Which texts the store path functions of crates/garret-common/src/lib.rs accept, and what they answer.
use garret.Common.{
  bind-eq-some, ℕ, ◌≡◌, ◌≢◌, ◌↔◌, refl, ap, sym, ◌∙◌, Bool, true, false, ◌&&◌, none, some, [], ◌∷◌,
  ◌++◌, arith, Text, if◌then◌else◌, ◌==◌, ==_iff, le→leb, &&-left, &&-right, length, all,
  length-append, take-append, drop-append, inl, inr, Bool-cases,
}
use garret.StorePath.Split.{
  strip_prefix, split_once, free_of, strip_prefix-append, strip_prefix_sound, split_once-append,
  split_once_sound, before_first-append, before_first_free, after_last-append, after_last_free,
  trim_end_free, trim_end-append, trim_end_last,
}
use garret.StorePath.Names.{
  is_base32_digit, is_nix_base32, is_store_hash, name_byte, is_name, path_of, store_basename,
  first_32, hash_of_store_path, parse_store_hash,
}

-- A byte that fails a test does not occur where every byte passes it.
free_of-all : (p : ℕ → Bool) (c : ℕ) (s : Text) → p c ≡ false → all p s ≡ true → free_of c s ≡ true
free_of-all p c [] n h = refl
free_of-all p c (x ∷ s) n h = elim (Bool-cases (x == c)) [
  | inl e ↦ cc (&&-left (p x) (all p s) h, n, ap p ((==_iff x c).0 e))
  | inr e ↦ rw e (free_of-all p c s n (&&-right (p x) (all p s) h))
]

-- What `is_store_hash` and the name's test say of a base name.
pub record IsObject (hash name : Text) : Type 0 where
  pub hash_ok : is_store_hash hash ≡ true
  pub name_ok : is_name name ≡ true

hash_free :
    (c : ℕ) (h : Text) → is_base32_digit c ≡ false → is_store_hash h ≡ true → free_of c h ≡ true
unfolding is_store_hash is_nix_base32
hash_free c h n ok =
    free_of-all is_base32_digit c h n (&&-right (length h == 32) (is_nix_base32 h) ok)

length-hash : (h : Text) → is_store_hash h ≡ true → length h ≡ 32
unfolding is_store_hash
length-hash h ok = (==_iff _ _).0 (&&-left (length h == 32) (is_nix_base32 h) ok)

slash_no_digit : is_base32_digit b'/' ≡ false
unfolding is_base32_digit
slash_no_digit = refl

dash_no_digit : is_base32_digit b'-' ≡ false
unfolding is_base32_digit
dash_no_digit = refl

slash_no_name : name_byte b'/' ≡ false
unfolding name_byte
slash_no_name = refl

name_free : (name : Text) → is_name name ≡ true → free_of b'/' name ≡ true
unfolding is_name
name_free name ok =
    free_of-all name_byte b'/' name slash_no_name (&&-right _ (all name_byte name) ok)

free_of-append :
    (c : ℕ) (a b : Text) → free_of c a ≡ true → free_of c b ≡ true → free_of c (a ++ b) ≡ true
free_of-append c [] b ha hb = hb
free_of-append c (x ∷ a) b ha hb = ground (arith, free_of-append c a b)

base_free : (hash name : Text) → IsObject hash name → free_of b'/' (hash ++ b'-' ∷ name) ≡ true
base_free hash name o =
    free_of-append b'/' hash (b'-' ∷ name) (hash_free b'/' hash slash_no_digit o.hash_ok)
      (name_free name o.name_ok)

kept :
    (t : Bool) (inner : Text) {base : Text}
    → (if t then some inner else none) ≡ some base
    → (t ≡ true) × (inner ≡ base)
kept true inner e = (refl, cc)
kept false inner e = cc

-- Exactly the paths `<store_dir>/<hash>-<name>` with a valid hash and name have a base name, and it
-- is `<hash>-<name>`.
pub store_basename_iff :
    (dir path base : Text)
    → (store_basename path dir ≡ some base) ↔ (
        (hash : Text) × (name : Text) × IsObject hash name
        × (base ≡ hash ++ b'-' ∷ name)
        × (path ≡ path_of dir hash name))
unfolding store_basename
store_basename_iff dir path base = (sound, λ o. rw (o.4) (complete o.0 o.1 o.2 ∙ ap some (sym o.3)))
  where
    complete :
        (hash name : Text)
        → IsObject hash name
        → store_basename (path_of dir hash name) dir ≡ some (hash ++ b'-' ∷ name)
    complete hash name o =
        let base' = hash ++ b'-' ∷ name in
        rw (
          strip_prefix-append dir (b'/' ∷ base'),
          strip_prefix-append (b'/' ∷ []) base',
          split_once-append b'-' hash name (hash_free b'-' hash dash_no_digit o.hash_ok),
          o.hash_ok,
          o.name_ok,
        )

    sound :
        store_basename path dir ≡ some base
        → (hash : Text) × (name : Text) × IsObject hash name
          × (base ≡ hash ++ b'-' ∷ name)
          × (path ≡ path_of dir hash name)
    sound e =
        let (rest, e1, f1) = bind-eq-some (strip_prefix dir path) _ e in
        let (inner, e2, f2) = bind-eq-some (strip_prefix (b'/' ∷ []) rest) _ f1 in
        let (parts, e3, f3) = bind-eq-some (split_once b'-' inner) _ f2 in
        let ok = kept (is_store_hash parts.0 && is_name parts.1) inner f3 in
        let cut = split_once_sound b'-' inner {a = parts.0} {b = parts.1} e3 in
        (
          parts.0,
          parts.1,
          record { hash_ok = &&-left _ _ ok.0; name_ok = &&-right (is_store_hash parts.0) _ ok.0 },
          sym ok.1 ∙ cut.0,
          strip_prefix_sound dir path e1
              ∙ ap (◌++◌ dir) (strip_prefix_sound (b'/' ∷ []) rest e2 ∙ ap (◌∷◌ b'/') cut.0),
        )

first_32-append : (hash name : Text) → length hash ≡ 32 → first_32 (hash ++ b'-' ∷ name) ≡ hash
first_32-append hash name n = rw (
  ← n,
  le→leb (length hash) (length (hash ++ b'-' ∷ name))
      (omega (arith, length-append hash (b'-' ∷ name))),
  drop-append hash (b'-' ∷ name),
  take-append hash (b'-' ∷ name),
)

base-ne : (hash name : Text) → hash ++ b'-' ∷ name ≢ []
base-ne [] name = λ e. cc
base-ne (c ∷ hash) name = λ e. cc

-- The key of a valid path is its hash.
pub hash_of_store_path-path_of :
    (dir hash name : Text) → IsObject hash name → hash_of_store_path (path_of dir hash name) ≡ hash
unfolding hash_of_store_path
hash_of_store_path-path_of dir hash name o =
    rw (after_last-append b'/' dir (hash ++ b'-' ∷ name) (base_free hash name o))
      (first_32-append hash name (length-hash hash o.hash_ok))

-- An operator may name an object by its bare hash, its base name or its path, with or without a
-- trailing slash; each gives the hash.
pub parse_store_hash_forms :
    (dir hash name : Text)
    → IsObject hash name
    → (parse_store_hash hash ≡ some hash)
      × (parse_store_hash (hash ++ b'-' ∷ name) ≡ some hash)
      × (parse_store_hash (path_of dir hash name) ≡ some hash)
      × (parse_store_hash (path_of dir hash name ++ b'/' ∷ []) ≡ some hash)
unfolding parse_store_hash
parse_store_hash_forms dir hash name o =
    let base = hash ++ b'-' ∷ name in
    let hash_slash = hash_free b'/' hash slash_no_digit o.hash_ok in
    let hash_dash = hash_free b'-' hash dash_no_digit o.hash_ok in
    let base_slash = base_free hash name o in
    let whole =
      trim_end-append b'/' (b'/' ∷ []) base (trim_end_free b'/' base base_slash)
        (base-ne hash name) in
    let path = trim_end-append b'/' dir (b'/' ∷ base) whole (λ e. cc) in
    let last = after_last-append b'/' dir base base_slash in
    let first = before_first-append b'-' hash name hash_dash in
    (
      rw (
        trim_end_free b'/' hash hash_slash,
        after_last_free b'/' hash hash_slash,
        before_first_free b'-' hash hash_dash,
        o.hash_ok,
      ),
      rw (
        trim_end_free b'/' base base_slash,
        after_last_free b'/' base base_slash,
        first,
        o.hash_ok,
      ),
      rw (path, last, first, o.hash_ok),
      rw (trim_end_last b'/' (path_of dir hash name), path, last, first, o.hash_ok),
    )
