-- ===== src/Admin/Sigs.antt =====
-- crates/garret-pusher/src/admin.rs: the row of an object whose signatures are made anew.
use garret.Common.{
  mem, mem_same, ℕ, ◌≡◌, refl, sym, ap, ◌∙◌, Bool, true, false, Option, none, some, List, [], ◌∷◌,
  arith, if◌then◌else◌, Text, text_eq, text_eq→≡, text_eq_sym, inl, inr, Bool-cases, Option-cases,
  some-injective,
}
use garret.Db.Schema.{Row, Object, Database, find}
use garret.Db.Objects.{
  get_object, get_object_and_last_accessed, references_of, update_sigs, map_option, object_of,
  set_sigs,
}
use garret.Db.Rows.{find-hash, find-map}
use garret.Narinfo.{sign, verify}
use garret.Fsck.{filter_map}
use garret.Admin.Commands.{Keys, texts_eq}

-- What an object should be after a re-signing: one that some key vouches for has the signatures of
-- the keys, any other is as it was.
abbrev pub with_sigs : Object → Option (List Text) → Object
with_sigs o none = o
with_sigs o (some sigs) = record o { sigs = sigs }

abbrev pub resigned_object : Keys → Object → Object
resigned_object keys o =
    if verify o keys.store_dir keys.checkers
    then with_sigs o (sign o keys.store_dir keys.signers)
    else o

pub texts_eq→≡ : (xs ys : List Text) → texts_eq xs ys ≡ true → xs ≡ ys
texts_eq→≡ [] [] e = refl
texts_eq→≡ [] (y ∷ ys) e = cc
texts_eq→≡ (x ∷ xs) [] e = cc
texts_eq→≡ (x ∷ xs) (y ∷ ys) e = ground (arith, e, texts_eq→≡ xs ys, text_eq→≡ x y)

pub get_object-hash :
    (db : Database) (h : Text) {o : Object} → get_object db h ≡ some o → o.store_path_hash ≡ h
unfolding get_object get_object_and_last_accessed
get_object-hash db h {o} e = elim (Option-cases (find h db.objects)) [
  | inl n ↦ cc (rw n at e)
  | inr (r, f) ↦
      ap (λ (p : Object). p.store_path_hash) (sym (some-injective (rw f at e)))
      ∙ find-hash h db.objects {r = r} f
]

abbrev read_as : List Text → Option Row → Option Object
read_as refs row =
    map_option (λ (o : Object × ℕ). o.0)
      (map_option (λ r. (object_of r refs, r.last_accessed_at)) row)

abbrev sigs_if : Text → Text → List Text → Object → Object
sigs_if h j sigs o = if text_eq h j then record o { sigs = sigs } else o

read_as-set_sigs :
    (refs : List Text) (h j : Text) (sigs : List Text) (row : Option Row)
    → ((r : Row) → row ≡ some r → r.store_path_hash ≡ j)
    → read_as refs (map_option (set_sigs h sigs) row)
      ≡ map_option (sigs_if h j sigs) (read_as refs row)
read_as-set_sigs refs h j sigs none k = refl
read_as-set_sigs refs h j sigs (some r) k =
    let same : text_eq r.store_path_hash h ≡ text_eq h j =
      ap (λ t. text_eq t h) (k r refl) ∙ text_eq_sym j h in
    elim (Bool-cases (text_eq h j)) [ inl t ↦ rw (same, t) refl | inr f ↦ rw (same, f) refl ]

-- An update of the signatures is seen by every read.
pub get_object-update_sigs :
    (db : Database) (h j : Text) (sigs : List Text)
    → get_object (update_sigs db h sigs) j ≡ map_option (sigs_if h j sigs) (get_object db j)
unfolding get_object get_object_and_last_accessed update_sigs references_of
get_object-update_sigs db h j sigs =
    ap (read_as (references_of db j)) (find-map (set_sigs h sigs) j db.objects (λ r. ground arith))
    ∙ read_as-set_sigs (references_of db j) h j sigs (find j db.objects)
        (λ r f. find-hash j db.objects {r = r} f)

-- Every object that is named is re-signed from what it was, the others are as they are.
abbrev pub ResignedOf : Keys → List Text → Database → Database → Database → Type 0
ResignedOf keys hashes read before after =
    (h : Text)
    → get_object after h ≡ (
        if mem h hashes
        then map_option (resigned_object keys) (get_object read h)
        else get_object before h)

pub filter_map-none :
    (f : Text → Option Object) (h : Text) (hs : List Text)
    → f h ≡ none
    → filter_map f (h ∷ hs) ≡ filter_map f hs
filter_map-none f h hs e = rw (e, filter_map) refl

pub filter_map-some :
    (f : Text → Option Object) (h : Text) (hs : List Text) {o : Object}
    → f h ≡ some o
    → filter_map f (h ∷ hs) ≡ o ∷ filter_map f hs
filter_map-some f h hs {o} e = rw (e, filter_map) refl

pub if_id : (b : Bool) (o : Object) → (if b then o else o) ≡ o
if_id true o = refl
if_id false o = refl

pub mem-apart :
    (j h : Text) (hs : List Text) → mem j hs ≡ true → mem h hs ≡ false → text_eq j h ≡ false
mem-apart j h hs m n = ground (arith, m, n, mem_same j h hs)

pub if_same : (b : Bool) (o : Option Object) → (if b then o else o) ≡ o
if_same true o = refl
if_same false o = refl

pub sigs_if-other :
    (h j : Text) (sigs : List Text) (o : Option Object)
    → text_eq h j ≡ false
    → map_option (sigs_if h j sigs) o ≡ o
sigs_if-other h j sigs none e = refl
sigs_if-other h j sigs (some x) e = rw e refl
