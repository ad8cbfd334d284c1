-- ===== src/Upload/Accepts.antt =====
-- What `build_object` of crates/garret-pusher/src/main.rs lets into the cache.
use garret.Common.{
  some-injective, bind-eq-some, ℕ, ◌≡◌, refl, sym, ap, subst, ◌∙◌, Bool, true, false, Option, none,
  some, List, [], ◌∷◌, ◌++◌, arith, if◌then◌else◌, Text, text_lt, length, All, ◌==◌, ==_iff,
  &&-left,
}
use garret.Db.Schema.{Object}
use garret.Db.Candidates.{sort_by-All}
use garret.StorePath.Split.{strip_prefix, strip_prefix_sound}
use garret.StorePath.Names.{is_store_hash, is_name, store_basename, path_of}
use garret.StorePath.Names.Forms.{IsObject, store_basename_iff}
use garret.StorePath.Frame.Exact.{IsByte}
use garret.Narinfo.{normalize_hash}
use garret.Narinfo.Hash.{IsNormal, normalize_hash-IsNormal}
use garret.Upload.{Preamble, single_line, basenames, basename, name_in, build_object}

-- `<hash>-<name>`, valid.
abbrev pub IsBase : Text → Type 0
IsBase base = (hash : Text) × (name : Text) × IsObject hash name × (base ≡ hash ++ b'-' ∷ name)

abbrev pub IsOptionalBase : Option Text → Type 0
IsOptionalBase none = Unit
IsOptionalBase (some base) = IsBase base

-- An object as nix itself would describe it, under the hash of the URL.
pub record IsGenuine (dir hash : Text) (object : Object) : Type 0 where
  pub named : IsObject hash object.name
  pub path : object.store_path ≡ path_of dir hash object.name
  pub key : object.store_path_hash ≡ hash
  pub refers : All IsBase object.references
  pub derived : IsOptionalBase object.deriver
  pub nar : IsNormal object.nar_hash
  pub line : single_line object.ca ≡ true

base_of : (dir path : Text) {base : Text} → store_basename path dir ≡ some base → IsBase base
base_of dir path {base} e = let o = (store_basename_iff dir path base).0 e in (o.0, o.1, o.2, o.3)

some-list : {a b : List Text} → some a ≡ some b → a ≡ b
some-list e = cc

basenames-IsBase :
    (dir : Text) (rs : List Text) {bs : List Text} → basenames dir rs ≡ some bs → All IsBase bs
basenames-IsBase dir [] e = subst (All IsBase) (some-list e) tt
basenames-IsBase dir (r ∷ rs) e =
    let (b, first, next) = bind-eq-some (store_basename r dir) _ e in
    let (rest, tail, whole) = bind-eq-some (basenames dir rs) _ next in
    subst (All IsBase) (some-list whole) (base_of dir r first, basenames-IsBase dir rs tail)

some-option : {a b : Option Text} → some a ≡ some b → a ≡ b
some-option e = cc

basename-IsOptionalBase :
    (dir : Text) (d : Option Text) {b : Option Text} → basename dir d ≡ some b → IsOptionalBase b
basename-IsOptionalBase dir none e = subst IsOptionalBase (some-option e) tt
basename-IsOptionalBase dir (some d) e =
    let (b, base, whole) = bind-eq-some (store_basename d dir) _ e in
    subst IsOptionalBase (some-option whole) (base_of dir d base)

length-hash : (h : Text) → is_store_hash h ≡ true → length h ≡ 32
unfolding is_store_hash
length-hash h ok = (==_iff _ _).0 (&&-left (length h == 32) _ ok)

same_front : (a b x y : Text) → length a ≡ length b → a ++ x ≡ b ++ y → (a ≡ b) × (x ≡ y)
same_front [] [] x y l e = (refl, e)
same_front [] (d ∷ b) x y l e = absurd (omega arith)
same_front (c ∷ a) [] x y l e = absurd (omega arith)
same_front (c ∷ a) (d ∷ b) x y l e =
    let rest = same_front a b x y (omega arith) cc in (cc (e, rest.0), rest.1)

named :
    (dir hash path : Text) {name : Text}
    → is_store_hash hash ≡ true
    → name_in hash path dir ≡ some name
    → IsObject hash name × (path ≡ path_of dir hash name)
named dir hash path {name} ok e =
    let (base, first, next) = bind-eq-some (store_basename path dir) _ e in
    let (rest, second, third) = bind-eq-some (strip_prefix hash base) _ next in
    let split : base ≡ hash ++ b'-' ∷ name =
      strip_prefix_sound hash base second
      ∙ ap (◌++◌ hash) (strip_prefix_sound (b'-' ∷ []) rest third) in
    let o = (store_basename_iff dir path base).0 first in
    let same =
      same_front o.0 hash (b'-' ∷ o.1) (b'-' ∷ name)
        (length-hash o.0 o.2.hash_ok ∙ sym (length-hash hash ok)) (sym o.3 ∙ split) in
    let same_name : o.1 ≡ name = tail_eq same.1 in
    (
      record { hash_ok = ok; name_ok = ap is_name (sym same_name) ∙ o.2.name_ok },
      o.4 ∙ ap (λ h. path_of dir h o.1) same.0 ∙ ap (path_of dir hash) same_name,
    )
  where
    tail_eq : {c : ℕ} {a b : Text} → c ∷ a ≡ c ∷ b → a ≡ b
    tail_eq e = cc

lined :
    (t : Bool) (o : Option Text) {n : Text}
    → (if t then o else none) ≡ some n
    → (t ≡ true) × (o ≡ some n)
lined true o e = (refl, e)
lined false o e = cc

-- What is accepted under a valid hash is what nix would produce: the path is the store's path for the
-- hash and a valid name, references and deriver are base names of store paths, the NAR hash has
-- nix's spelling and `ca` is one line. Base64 decodes to bytes.
pub build_object-IsGenuine :
    (decode : Text → Option Text) (hash : Text) (p : Preamble) (dir subject : Text)
    {object : Object}
    → ((text bytes : Text) → decode text ≡ some bytes → All IsByte bytes)
    → is_store_hash hash ≡ true
    → build_object decode hash p dir subject ≡ some object
    → IsGenuine dir hash object
unfolding build_object
build_object-IsGenuine decode hash p dir subject small ok e =
    let (name, e1, f1) = bind-eq-some (name_in hash p.store_path dir) _ e in
    let (references, e2, f2) = bind-eq-some (basenames dir p.references) _ f1 in
    let (deriver, e3, f3) = bind-eq-some (basename dir p.deriver) _ f2 in
    let (nar_hash, e4, f4) =
      bind-eq-some (if single_line p.ca then normalize_hash decode p.nar_hash else none) _ f3 in
    let path = named dir hash p.store_path ok e1 in
    let (line, normal) = lined (single_line p.ca) (normalize_hash decode p.nar_hash) e4 in
    subst (IsGenuine dir hash) (some-injective f4) record {
      named = path.0;
      path = path.1;
      key = refl;
      refers = sort_by-All text_lt IsBase references (basenames-IsBase dir p.references e2);
      derived = basename-IsOptionalBase dir p.deriver e3;
      nar = (normalize_hash-IsNormal decode p.nar_hash small normal).0;
      line = line;
    }
