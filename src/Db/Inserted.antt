-- ===== src/Db/Inserted.antt =====
-- crates/garret-server/src/db.rs: the invariant of the tables, kept by an insert.
use garret.Common.{
  ℕ, ◌≡◌, refl, ap, subst, ◌∙◌, Option, none, some, List, [], ◌∷◌, arith, Text, text_eq_refl, any,
  All, All-filter, All-imp, All-append, ◌++◌, inl, inr, Bool-cases,
}
use garret.Common.Int.{pos, upsert_counter}
use garret.Common.Result.{ok, ok-injective, >>=-eq-ok}
use garret.Db.Schema.{Object, Row, Ref, Database, find, refs_without, sum_sizes}
use garret.Db.Objects.{
  or_zero, map_option, file_size, row_of, upsert, insert_refs, insert_object, same_ref,
}
use garret.Db.Rows.{size_of, find-upsert, upsert-Unique, sum_sizes-upsert, size_of-le-sum}
use garret.Db.WellFormed.{Owned, IsWellFormed}

-- What holds of the references there and of every one inserted holds of the result.
insert_refs-All :
    (P : Ref → Type 0) (h : Text) (rs : List Text) (refs : List Ref) {out : List Ref}
    → ((r : Text) → P (record { referrer = h; reference = r }))
    → All P refs
    → insert_refs h rs refs ≡ ok out
    → All P out
unfolding insert_refs
insert_refs-All P h [] refs new old e = subst (All P) (cc) old
insert_refs-All P h (r ∷ rs) refs {out} new old e = elim (Bool-cases (any (same_ref h r) refs)) [
  | inl t ↦ cc (t, e)
  | inr f ↦
      insert_refs-All P h rs (refs ++ record { referrer = h; reference = r } ∷ []) {out = out} new
        (All-append P refs (record { referrer = h; reference = r } ∷ []) old (new r, tt))
        (rw f at e)
]

Owned-upsert : (new : Row) (h : Text) (rows : List Row) → Owned rows h → Owned (upsert new rows) h
Owned-upsert new h rows o = ground (arith, find-upsert new h rows)

previous_size : (o : Option Row) → or_zero (map_option (λ r. r.file_size) o) ≡ size_of o
previous_size none = refl
previous_size (some r) = refl

-- A push that is recorded keeps the tables well formed, also when it replaces a row.
pub insert_object-IsWellFormed :
    (db : Database) (obj : Object) (now : ℕ) {db' : Database}
    → IsWellFormed db
    → insert_object db obj now ≡ ok db'
    → IsWellFormed db'
unfolding insert_object file_size refs_without
insert_object-IsWellFormed db obj now w e =
    let h = obj.store_path_hash in
    let new = row_of obj now in
    let rows = upsert new db.objects in
    let (refs, inserted, result) =
      >>=-eq-ok (insert_refs h obj.references (refs_without h db.object_refs)) _ e in
    let sum = sum_sizes-upsert new db.objects in
    let previous : or_zero (file_size db h) ≡ size_of (find h db.objects) =
      previous_size (find h db.objects) in
    subst IsWellFormed (ok-injective result) record {
      unique = upsert-Unique new db.objects w.unique;
      refs_owned =
          insert_refs-All (λ (r : Ref). Owned rows r.referrer) h obj.references
            (refs_without h db.object_refs) {out = refs}
            (λ r. ground (arith, find-upsert new h db.objects, text_eq_refl h))
            (All-filter (λ (r : Ref). Owned rows r.referrer) _ db.object_refs
              (All-imp (λ r o. Owned-upsert new r.referrer db.objects o) db.object_refs
                w.refs_owned))
            inserted;
      pins_owned =
          All-imp (λ p o. Owned-upsert new p.store_path_hash db.objects o) db.pins w.pins_owned;
      counted =
          rw (w.counted, previous)
            (upsert_counter (sum_sizes db.objects) obj.file_size (size_of (find h db.objects))
                (size_of-le-sum h db.objects)
              ∙ ap pos (omega arith));
    }
