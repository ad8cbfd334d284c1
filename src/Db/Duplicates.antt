-- ===== src/Db/Duplicates.antt =====
-- `insert_object` of crates/garret-server/src/db.rs: which reference it refuses.
use garret.Common.{
  mem-append, mem, ℕ, ◌≡◌, ◌↔◌, refl, sym, ap, ◌∙◌, Bool, true, false, ◌||◌, List, [], ◌∷◌, ◌++◌,
  arith, Text, text_eq_sym, any, inl, inr, Bool-cases,
}
use garret.Common.Result.{ok, err}
use garret.Db.Schema.{Object, Ref, Database, refs_without}
use garret.Db.Objects.{constraint, insert_refs, insert_object, same_ref}
use garret.Db.Insert.{listed, listed-append, listed_one, listed-refs_without_self}

-- A text occurs twice.
abbrev pub has_duplicate : List Text → Bool
has_duplicate [] = false
has_duplicate (r ∷ rs) = mem r rs || has_duplicate rs

any-same_ref : (h r : Text) (refs : List Ref) → any (same_ref h r) refs ≡ mem r (listed h refs)
any-same_ref h r [] = refl
any-same_ref h r (x ∷ refs) = ground (arith, any-same_ref h r refs, text_eq_sym x.reference r)

-- Some text of the second list occurs in the first.
abbrev meets : List Text → List Text → Bool
meets seen rs = any (λ r. mem r seen) rs

meets-append :
    (seen rs : List Text) (r : Text) → meets (seen ++ r ∷ []) rs ≡ (meets seen rs || mem r rs)
meets-append seen [] r = refl
meets-append seen (x ∷ rs) r =
    ground (arith, meets-append seen rs r, mem-append x seen (r ∷ []), text_eq_sym x r)

or_regroup :
    (m a b d s v : Bool) → m ≡ false → s ≡ (a || b) → ((m || a) || (b || d)) ≡ v → (s || d) ≡ v
or_regroup m a b d s v f n e = ground arith

or_clash : (m a c : Bool) → m ≡ true → ((m || a) || c) ≡ false → ⊥
or_clash m a c t e = ground arith

meets_none : (rs : List Text) → meets [] rs ≡ false
meets_none [] = refl
meets_none (r ∷ rs) = meets_none rs

meets-extended :
    (h r : Text) (rs : List Text) (refs : List Ref)
    → meets (listed h (refs ++ record { referrer = h; reference = r } ∷ [])) rs
      ≡ (meets (listed h refs) rs || mem r rs)
meets-extended h r rs refs =
    ap (λ l. meets l rs) (listed-append h refs (record { referrer = h; reference = r } ∷ []))
    ∙ ap (λ l. meets (listed h refs ++ l) rs) (listed_one h r)
    ∙ meets-append (listed h refs) rs r

later_clash :
    (h r : Text) (rs : List Text) (refs : List Ref)
    → any (same_ref h r) refs ≡ false
    → (v : Bool) → (meets (listed h refs) (r ∷ rs) || has_duplicate (r ∷ rs)) ≡ v
    → (meets (listed h (refs ++ record { referrer = h; reference = r } ∷ [])) rs
        || has_duplicate rs)
      ≡ v
later_clash h r rs refs f v e =
    or_regroup (mem r (listed h refs)) (meets (listed h refs) rs) (mem r rs) (has_duplicate rs)
      (meets (listed h (refs ++ record { referrer = h; reference = r } ∷ [])) rs) v
      (sym (any-same_ref h r refs) ∙ f) (meets-extended h r rs refs) e

-- The inserts fail exactly when a reference is there already or is listed twice.
insert_refs-result :
    (h : Text) (rs : List Text) (refs : List Ref)
    → ((meets (listed h refs) rs || has_duplicate rs) ≡ true
        → insert_refs h rs refs ≡ err constraint)
      × ((meets (listed h refs) rs || has_duplicate rs) ≡ false
          → (out : List Ref) × (insert_refs h rs refs ≡ ok out))
unfolding insert_refs
insert_refs-result h [] refs = (λ e. cc, λ e. (refs, refl))
insert_refs-result h (r ∷ rs) refs =
    let new : List Ref = record { referrer = h; reference = r } ∷ [] in
    let rest = insert_refs-result h rs (refs ++ new) in
    elim (Bool-cases (any (same_ref h r) refs)) [
      | inl t ↦ (
        λ e. rw t,
        λ e. absurd (
            or_clash (mem r (listed h refs)) (meets (listed h refs) rs) _
              (sym (any-same_ref h r refs) ∙ t) e),
      )
      | inr f ↦
          let later = later_clash h r rs refs f in
          (
            λ e. rw f (rest.0 (later true e)),
            λ e. ((rest.1 (later false e)).0, rw f ((rest.1 (later false e)).1)),
          )
    ]

-- A push is refused by the table exactly when the object lists a reference twice.
pub insert_object-fails_iff :
    (db : Database) (obj : Object) (now : ℕ)
    → (insert_object db obj now ≡ err constraint) ↔ (has_duplicate obj.references ≡ true)
unfolding insert_object
insert_object-fails_iff db obj now =
    let h = obj.store_path_hash in
    let old = refs_without h db.object_refs in
    let clear : meets (listed h old) obj.references ≡ false =
      ap (λ l. meets l obj.references) (listed-refs_without_self h db.object_refs)
      ∙ meets_none obj.references in
    let result = insert_refs-result h obj.references old in
    elim (Bool-cases (has_duplicate obj.references)) [
      | inl t ↦ (
        λ e. t,
        λ e. rw (result.0 (ap (λ m. m || has_duplicate obj.references) clear ∙ t), insert_object),
      )
      | inr f ↦
          let (out, fine) = result.1 (ap (λ m. m || has_duplicate obj.references) clear ∙ f) in
          (λ e. let g = rw (fine, insert_object) at e in cc g, λ e. cc (e, f))
    ]
