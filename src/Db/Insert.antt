-- ===== src/Db/Insert.antt =====
-- crates/garret-server/src/db.rs: the row that an insert leaves.
use mathlib.Core.List.{append-nil, append_assoc}
use garret.Common.{
  ℕ, ◌≡◌, refl, sym, ap, subst, ◌∙◌, false, some, List, [], ◌∷◌, ◌++◌, map, arith, if◌then◌else◌,
  Text, text_eq, text_eq_refl, text_eq→≡, text_lt, filter, any, inl, inr, Bool-cases,
}
use garret.Common.Result.{ok, ok-injective, >>=-eq-ok}
use garret.Db.Schema.{Object, Ref, Database, refs_without, sort_by}
use garret.Db.Objects.{
  row_of, upsert, insert_refs, insert_object, references_of, get_object,
  get_object_and_last_accessed, same_ref, file_size,
}
use garret.Db.Rows.{find-upsert}

-- The references of one object, in the order of the table.
abbrev pub listed : Text → List Ref → List Text
listed h refs = map (λ r. r.reference) (filter (λ r. text_eq r.referrer h) refs)

pub listed-append : (h : Text) (xs ys : List Ref) → listed h (xs ++ ys) ≡ listed h xs ++ listed h ys
listed-append h [] ys = refl
listed-append h (x ∷ xs) ys = ground (arith, listed-append h xs ys)

pub listed_one : (h r : Text) → listed h (record { referrer = h; reference = r } ∷ []) ≡ r ∷ []
listed_one h r = rw (text_eq_refl h)

listed_other :
    (h j r : Text)
    → text_eq h j ≡ false
    → listed j (record { referrer = h; reference = r } ∷ []) ≡ []
listed_other h j r n = rw n

insert_refs-listed_self :
    (h : Text) (rs : List Text) (refs : List Ref) {out : List Ref}
    → insert_refs h rs refs ≡ ok out
    → listed h out ≡ listed h refs ++ rs
unfolding insert_refs
insert_refs-listed_self h [] refs {out} e =
    ap (listed h) (sym (ok-injective e)) ∙ sym (append-nil (listed h refs))
insert_refs-listed_self h (r ∷ rs) refs {out} e = elim (Bool-cases (any (same_ref h r) refs)) [
  | inl t ↦ cc (t, e)
  | inr f ↦
      let new : List Ref = record { referrer = h; reference = r } ∷ [] in
      insert_refs-listed_self h rs (refs ++ new) {out = out} (rw f at e)
      ∙ ap (λ l. l ++ rs) (listed-append h refs new ∙ ap (◌++◌ (listed h refs)) (listed_one h r))
      ∙ append_assoc (listed h refs) (r ∷ []) rs
]

insert_refs-listed_ne :
    (h j : Text) (rs : List Text) (refs : List Ref) {out : List Ref}
    → text_eq h j ≡ false
    → insert_refs h rs refs ≡ ok out
    → listed j out ≡ listed j refs
unfolding insert_refs
insert_refs-listed_ne h j [] refs {out} n e = ap (listed j) (sym (ok-injective e))
insert_refs-listed_ne h j (r ∷ rs) refs {out} n e = elim (Bool-cases (any (same_ref h r) refs)) [
  | inl t ↦ cc (t, e)
  | inr f ↦
      let new : List Ref = record { referrer = h; reference = r } ∷ [] in
      insert_refs-listed_ne h j rs (refs ++ new) {out = out} n (rw f at e)
      ∙ listed-append j refs new
      ∙ ap (◌++◌ (listed j refs)) (listed_other h j r n)
      ∙ append-nil (listed j refs)
]

pub listed-refs_without_self : (h : Text) (refs : List Ref) → listed h (refs_without h refs) ≡ []
unfolding refs_without
listed-refs_without_self h [] = refl
listed-refs_without_self h (r ∷ refs) = ground (arith, listed-refs_without_self h refs)

listed-refs_without_ne :
    (h j : Text) (refs : List Ref)
    → text_eq h j ≡ false
    → listed j (refs_without h refs) ≡ listed j refs
unfolding refs_without
listed-refs_without_ne h j [] n = refl
listed-refs_without_ne h j (r ∷ refs) n =
    ground
      (arith, listed-refs_without_ne h j refs n, text_eq→≡ r.referrer h, text_eq→≡ r.referrer j)

-- When a push is recorded, its object reads back as it was pushed, its references sorted; every
-- other object reads as before, and the pins stay.
pub insert_object-get_object :
    (db : Database) (obj : Object) (now : ℕ) (j : Text) {db' : Database}
    → insert_object db obj now ≡ ok db'
    → (get_object db' j ≡ (
        if text_eq obj.store_path_hash j
        then some (record obj { references = sort_by text_lt obj.references })
        else get_object db j))
      × (db'.pins ≡ db.pins)
unfolding insert_object get_object get_object_and_last_accessed references_of file_size
insert_object-get_object db obj now j {db'} e =
    let h = obj.store_path_hash in
    let old = refs_without h db.object_refs in
    let (refs, inserted, result) = >>=-eq-ok (insert_refs h obj.references old) _ e in
    let next = ok-injective result in
    let rows : db'.objects ≡ upsert (row_of obj now) db.objects = ap (λ d. d.objects) (sym next) in
    let kept : db'.object_refs ≡ refs = ap (λ d. d.object_refs) (sym next) in
    let own : listed h db'.object_refs ≡ obj.references =
      ap (listed h) kept
      ∙ insert_refs-listed_self h obj.references old inserted
      ∙ ap (λ l. l ++ obj.references) (listed-refs_without_self h db.object_refs) in
    let self : get_object db' h
        ≡ some (record obj { references = sort_by text_lt obj.references }) =
      rw (rows, find-upsert (row_of obj now) h db.objects, text_eq_refl h, own) in
    (
      elim (Bool-cases (text_eq h j)) [
        | inl t ↦ rw t (
            subst
              (λ k.
                get_object db' k
                ≡ some (record obj { references = sort_by text_lt obj.references }))
              (text_eq→≡ h j t) self)
        | inr m ↦
            let other : listed j db'.object_refs ≡ listed j db.object_refs =
              ap (listed j) kept
              ∙ insert_refs-listed_ne h j obj.references old m inserted
              ∙ listed-refs_without_ne h j db.object_refs m in
            rw (m, rows, find-upsert (row_of obj now) j db.objects, m, other)
      ],
      ap (λ d. d.pins) (sym next),
    )
