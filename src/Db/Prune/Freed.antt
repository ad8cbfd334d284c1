-- ===== src/Db/Prune/Freed.antt =====
-- crates/garret-server/src/db.rs: the bytes that a prune frees.
use garret.Common.{
  ℕ, ◌+◌, ◌≡◌, refl, sym, ap, subst, ◌∙◌, Bool, true, false, not, ◌&&◌, List, [], ◌∷◌, arith, Text,
  text_eq, text_eq→≡, text_eq_refl, text_eq_sym, All, filter, inl, inr, Bool-cases,
}
use garret.Common.Result.{ok}
use garret.Db.Schema.{Row, Database, ObjectBrief, find, without, sum_sizes}
use garret.Db.Rows.{Unique, size_of, without-Unique, sum_sizes-without, find-without_ne}
use garret.Db.WellFormed.{IsWellFormed}
use garret.Db.Prune.{prunable, sum_brief, delete_pruned}
use garret.Db.Prune.Place.{gone, Distinct}
use garret.Db.Prune.Deletes.{concat, delete_batches-objects}
use garret.Db.Prune.Batch.{Matches, left}
use garret.Db.Prune.Listed.{IsOf}
use garret.Db.Prune.Closed.{distinct, all-IsOf, whole_order, Front-IsWellFormed}

filter-filter :
    (p q : Row → Bool) (rows : List Row) → filter p (filter q rows) ≡ filter (λ r. q r && p r) rows
filter-filter p q [] = refl
filter-filter p q (r ∷ rows) = elim (Bool-cases (q r)) [
  | inr f ↦ rw f (filter-filter p q rows)
  | inl t ↦ elim (Bool-cases (p r)) [
    | inl u ↦ rw (t, u, filter-filter p q rows) refl
    | inr u ↦ rw (t, u) (filter-filter p q rows)
  ]
]

filter_ext :
    (p q : Row → Bool) (rows : List Row) → ((r : Row) → p r ≡ q r) → filter p rows ≡ filter q rows
filter_ext p q [] e = refl
filter_ext p q (r ∷ rows) e = rw (e r, filter_ext p q rows e) refl

abbrev stays : List ObjectBrief → Row → Bool
stays os r = not (gone r.store_path_hash os)

filter_all : (rows : List Row) → filter (λ r. true) rows ≡ rows
filter_all [] = refl
filter_all (r ∷ rows) = rw (filter_all rows) refl

left-filter : (os : List ObjectBrief) (rows : List Row) → left os rows ≡ filter (stays os) rows
unfolding without
left-filter [] rows = sym (filter_all rows)
left-filter (o ∷ os) rows =
    left-filter os (without o.store_path_hash rows)
    ∙ filter-filter (stays os) (λ r. not (text_eq r.store_path_hash o.store_path_hash)) rows
    ∙ filter_ext _ (stays (o ∷ os)) rows
        (λ r. ground (arith, text_eq_sym r.store_path_hash o.store_path_hash))

-- Lists that name the same hashes leave the same rows.
left_same :
    (os ps : List ObjectBrief) (rows : List Row)
    → ((h : Text) → gone h os ≡ gone h ps)
    → left os rows ≡ left ps rows
left_same os ps rows e =
    left-filter os rows
    ∙ filter_ext (stays os) (stays ps) rows (λ r. ap not (e r.store_path_hash))
    ∙ sym (left-filter ps rows)

listed-Matches :
    (all : List Row) (os : List ObjectBrief) (rows : List Row)
    → Distinct os
    → All (IsOf all) os
    → ((h : Text) → gone h os ≡ true → find h rows ≡ find h all)
    → Matches rows os
listed-Matches all [] rows d a same = tt
listed-Matches all (o ∷ os) rows d a same =
    let (r, found, size) = a.0 in
    (
      (r, same o.store_path_hash (ground (arith, text_eq_refl o.store_path_hash)) ∙ found, size),
      listed-Matches all os (without o.store_path_hash rows) d.1 a.1 (λ h g.
          find-without_ne o.store_path_hash h rows (apart h g) ∙ same h (ground (arith, g))),
    )
  where
    apart : (h : Text) → gone h os ≡ true → text_eq o.store_path_hash h ≡ false
    apart h g = elim (Bool-cases (text_eq o.store_path_hash h)) [
      | inr f ↦ f
      | inl t ↦ cc (d.0, g, text_eq→≡ o.store_path_hash h t)
    ]

sum_sizes-left :
    (os : List ObjectBrief) (rows : List Row)
    → Unique rows
    → Matches rows os
    → sum_sizes (left os rows) + sum_brief os ≡ sum_sizes rows
sum_sizes-left [] rows u m = omega arith
sum_sizes-left (o ∷ os) rows u ((r, found, size), m) = omega (
  arith,
  sum_sizes-left os (without o.store_path_hash rows) (without-Unique o.store_path_hash rows u) m,
  sum_sizes-without o.store_path_hash rows u,
  ap size_of found,
  size,
)

-- A prune that succeeds keeps the tables well formed, and frees the sizes that it reports.
pub delete_pruned-freed :
    (db : Database) (before now : ℕ) {doomed : List ObjectBrief} {after : Database}
    → IsWellFormed db
    → prunable db before now ≡ ok doomed
    → delete_pruned db doomed ≡ ok after
    → IsWellFormed after × (sum_sizes after.objects + sum_brief doomed ≡ sum_sizes db.objects)
delete_pruned-freed db before now {doomed} {after} w listing e =
    let (split, order, front, same, last) = whole_order db before now w listing e in
    let left_rows : after.objects ≡ left doomed db.objects =
      ap (λ (d : Database). d.objects) (sym last)
      ∙ delete_batches-objects split db
      ∙ left_same (concat split) doomed db.objects same in
    (
      subst IsWellFormed last (Front-IsWellFormed db before now w listing split order front),
      ap (λ rows. sum_sizes rows + sum_brief doomed) left_rows
          ∙ sum_sizes-left doomed db.objects w.unique (
              listed-Matches db.objects doomed db.objects (distinct db before now w listing)
                (all-IsOf db before now w listing) (λ h g. refl)),
    )
