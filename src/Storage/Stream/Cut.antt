-- ===== src/Storage/Stream/Cut.antt =====
-- crates/garret-server/src/storage.rs: the parts of an upload as a cut of its body, sent in order.
use garret.Common.{
  append_assoc, append_nil, ℕ, ◌≤◌, ◌<◌, ◌≡◌, refl, sym, ap, ◌∙◌, Bool, true, List, [], ◌∷◌, ◌++◌,
  arith, Text, All, length, inl, inr, Bool-cases,
}
use garret.Common.Result.{Result, ok, err, ok-injective, map_err}
use garret.Db.Schema.{sort_by, insert_by}
use garret.Storage.Stream.{Reader, Part, Multipart, S3, earlier}
use garret.Storage.Stream.Fill.{is_clean, unread}
use garret.Storage.Stream.Parts.{IsSent, IsNumbered}
use garret.Storage.Stream.Sort.{sort}

-- The bytes of some parts, one after another.
abbrev pub contents : List Part → Text
contents [] = []
contents (p ∷ ps) = p.bytes ++ contents ps

-- Every part has the full size, but for the last, which may be short.
abbrev pub IsCut : ℕ → List Part → Type 0
IsCut size [] = Unit
IsCut size (p ∷ []) = (1 ≤ length p.bytes) × (length p.bytes ≤ size)
IsCut size (p ∷ q ∷ ps) = (length p.bytes ≡ size) × IsCut size (q ∷ ps)

abbrev pub Full : ℕ → List Part → Type 0
Full size = All (λ (p : Part). length p.bytes ≡ size)

pub Full-IsCut : (size : ℕ) (ps : List Part) → 1 ≤ size → Full size ps → IsCut size ps
Full-IsCut size [] b f = tt
Full-IsCut size (p ∷ []) b f = (omega (arith, f.0, b), omega (arith, f.0))
Full-IsCut size (p ∷ q ∷ ps) b f = (f.0, Full-IsCut size (q ∷ ps) b f.1)

pub Full-append :
    (size : ℕ) (ps : List Part) (p : Part)
    → Full size ps
    → 1 ≤ length p.bytes
    → length p.bytes ≤ size
    → IsCut size (ps ++ p ∷ [])
Full-append size [] p f a b = (a, b)
Full-append size (q ∷ []) p f a b = (f.0, (a, b))
Full-append size (q ∷ r ∷ ps) p f a b = (f.0, Full-append size (r ∷ ps) p f.1 a b)

pub contents-append : (ps : List Part) (p : Part) → contents (ps ++ p ∷ []) ≡ contents ps ++ p.bytes
contents-append [] p = append_nil p.bytes
contents-append (q ∷ ps) p =
    ap (λ t. q.bytes ++ t) (contents-append ps p) ∙ sym (append_assoc q.bytes (contents ps) p.bytes)

-- The parts sent hold what was read of the whole body.
pub record Sending (s3 : S3) (size : ℕ) (whole : Text) (clean : Bool) (m : Multipart)
    (parts : List Part) (r : Reader) : Type 0 where
  pub sent : IsSent s3 m parts
  pub numbers : IsNumbered 1 parts
  pub holds : contents parts ≡ r.taken
  pub rest : r.taken ++ unread r ≡ whole
  pub same : is_clean r.body ≡ clean

-- At the end of the loop nothing is unread.
pub record Ended (s3 : S3) (size : ℕ) (whole : Text) (clean : Bool) (m : Multipart)
    (parts : List Part) (r : Reader) : Type 0 where
  pub sent : IsSent s3 m parts
  pub numbers : IsNumbered 1 parts
  pub cut : IsCut size parts
  pub holds : contents parts ≡ whole
  pub taken : r.taken ≡ whole
  pub clean_body : clean ≡ true

pub no_bytes : (t : Text) → length t ≡ 0 → t ≡ []
no_bytes [] e = refl
no_bytes (x ∷ t) e = absurd (omega (arith, e))

pub no_parts : (ps : List Part) → length ps < 1 → ps ≡ []
no_parts [] b = refl
no_parts (p ∷ ps) b = absurd (omega (arith, b))

pub map_err-ok :
    {A E F : Type 0} (f : E → F) (r : Result A E) {a : A} → map_err f r ≡ ok a → r ≡ ok a
map_err-ok f (ok a) e = ap ok (ok-injective e)
map_err-ok f (err x) e = cc

insert-All :
    (s3 : S3) (p : Part) (ps : List Part)
    → s3.upload_part p ≡ true
    → All (λ q. s3.upload_part q ≡ true) ps
    → All (λ q. s3.upload_part q ≡ true) (insert_by earlier p ps)
unfolding insert_by
insert-All s3 p [] u a = (u, tt)
insert-All s3 p (q ∷ ps) u a = elim (Bool-cases (earlier q p)) [
  | inl t ↦ rw t (a.0, insert-All s3 p ps u a.1)
  | inr f ↦ rw f (u, a)
]

pub sort-All :
    (s3 : S3) (ps : List Part)
    → All (λ q. s3.upload_part q ≡ true) ps
    → All (λ q. s3.upload_part q ≡ true) (sort ps)
unfolding sort_by
sort-All s3 [] a = tt
sort-All s3 (p ∷ ps) a = insert-All s3 p (sort ps) a.0 (sort-All s3 ps a.1)
