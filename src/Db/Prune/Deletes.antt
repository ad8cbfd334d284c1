-- ===== src/Db/Prune/Deletes.antt =====
-- crates/garret-server/src/db.rs: the rows that `delete_pruned` takes, batch by batch.
use garret.Common.{
  append_assoc, ℕ, zero, suc, ◌≤◌, ◌≡◌, refl, sym, ap, subst, ◌∙◌, false, none, List, [], ◌∷◌, ◌++◌,
  map, arith, if◌then◌else◌, Text, text_eq, text_eq→≡, text_eq_sym, All, All-imp, length, get_elem?,
  take, drop, inl, inr, Bool-cases, Option-cases, take-append-drop, length-drop,
}
use garret.Db.Schema.{Row, Ref, Database, ObjectBrief, find, without, refs_without}
use garret.Db.Objects.{debit}
use garret.Db.Rows.{find-without_ne, find-without_self}
use garret.Db.WellFormed.{IsWellFormed}
use garret.Db.Prune.{delete_batch, delete_batches, pick, chunks}
use garret.Db.Prune.Place.{gone}
use garret.Db.Prune.Batch.{Matches, left, refs_left, delete_rows-eq, delete_batch-IsWellFormed}

left-append :
    (front back : List ObjectBrief) (rows : List Row)
    → left (front ++ back) rows ≡ left back (left front rows)
left-append [] back rows = refl
left-append (o ∷ front) back rows = left-append front back (without o.store_path_hash rows)

refs_left-append :
    (front back : List ObjectBrief) (refs : List Ref)
    → refs_left (front ++ back) refs ≡ refs_left back (refs_left front refs)
refs_left-append [] back refs = refl
refs_left-append (o ∷ front) back refs =
    refs_left-append front back (refs_without o.store_path_hash refs)

Matches-append :
    (front back : List ObjectBrief) (rows : List Row)
    → Matches rows (front ++ back)
    → Matches rows front × Matches (left front rows) back
Matches-append [] back rows m = (tt, m)
Matches-append (o ∷ front) back rows (m, ms) =
    let (f, b) = Matches-append front back (without o.store_path_hash rows) ms in ((m, f), b)

abbrev pub concat : List (List ObjectBrief) → List ObjectBrief
concat [] = []
concat (b ∷ bs) = b ++ concat bs

-- What the transactions leave, one after another.
pub delete_batches-objects :
    (bs : List (List ObjectBrief)) (db : Database)
    → (delete_batches bs db).objects ≡ left (concat bs) db.objects
unfolding delete_batches delete_batch debit
delete_batches-objects [] db = refl
delete_batches-objects (b ∷ bs) db =
    delete_batches-objects bs (delete_batch b db)
    ∙ ap (λ (d : Database). left (concat bs) d.objects) (delete_rows-eq b db)
    ∙ sym (left-append b (concat bs) db.objects)

pub delete_batches-refs :
    (bs : List (List ObjectBrief)) (db : Database)
    → (delete_batches bs db).object_refs ≡ refs_left (concat bs) db.object_refs
unfolding delete_batches delete_batch debit
delete_batches-refs [] db = refl
delete_batches-refs (b ∷ bs) db =
    delete_batches-refs bs (delete_batch b db)
    ∙ ap (λ (d : Database). refs_left (concat bs) d.object_refs) (delete_rows-eq b db)
    ∙ sym (refs_left-append b (concat bs) db.object_refs)

pub delete_batches-IsWellFormed :
    (bs : List (List ObjectBrief)) (db : Database)
    → IsWellFormed db
    → Matches db.objects (concat bs)
    → IsWellFormed (delete_batches bs db)
unfolding delete_batches delete_batch debit
delete_batches-IsWellFormed [] db w m = w
delete_batches-IsWellFormed (b ∷ bs) db w m =
    let (here, later) = Matches-append b (concat bs) db.objects m in
    delete_batches-IsWellFormed bs (delete_batch b db) (delete_batch-IsWellFormed b db w here)
      (subst (λ (d : Database). Matches d.objects (concat bs)) (sym (delete_rows-eq b db)) later)

-- The rows left, and the references left, are those of the hashes not listed.
pub find-left :
    (os : List ObjectBrief) (rows : List Row) (h : Text)
    → find h (left os rows) ≡ (if gone h os then none else find h rows)
find-left [] rows h = refl
find-left (o ∷ os) rows h =
    find-left os (without o.store_path_hash rows) h
    ∙ ground (
      arith,
      find-without_ne o.store_path_hash h rows,
      find-without_self h rows,
      text_eq→≡ o.store_path_hash h,
    )

refs_without-All :
    (P : Ref → Type 0) (h : Text) (refs : List Ref)
    → All P refs
    → All (λ r. P r × (text_eq r.referrer h ≡ false)) (refs_without h refs)
unfolding refs_without
refs_without-All P h [] ps = tt
refs_without-All P h (r ∷ refs) ps = elim (Bool-cases (text_eq r.referrer h)) [
  | inl t ↦ rw t (refs_without-All P h refs ps.1)
  | inr f ↦ rw f ((ps.0, f), refs_without-All P h refs ps.1)
]

pub refs_left-All :
    (P : Ref → Type 0) (os : List ObjectBrief) (refs : List Ref)
    → All P refs
    → All (λ r. P r × (gone r.referrer os ≡ false)) (refs_left os refs)
refs_left-All P [] refs ps = All-imp (λ r p. (p, refl)) refs ps
refs_left-All P (o ∷ os) refs ps =
    All-imp
      (λ r ((p, apart), later).
        (p, ground (arith, apart, later, text_eq_sym o.store_path_hash r.referrer)))
      (refs_left os (refs_without o.store_path_hash refs))
      (refs_left-All (λ r. P r × (text_eq r.referrer o.store_path_hash ≡ false)) os
        (refs_without o.store_path_hash refs) (refs_without-All P o.store_path_hash refs ps))

pick-append :
    (doomed : List ObjectBrief) (front back : List ℕ)
    → pick doomed (front ++ back) ≡ pick doomed front ++ pick doomed back
unfolding pick
pick-append doomed [] back = refl
pick-append doomed (i ∷ front) back = elim (Option-cases (get_elem? doomed i)) [
  | inl n ↦ rw n (pick-append doomed front back)
  | inr (o, e) ↦ rw (e, pick-append doomed front back) refl
]

-- The first batches hold a front of the order.
pub chunks-front :
    (doomed : List ObjectBrief) (k fuel m : ℕ) (order : List ℕ)
    → (front : List ℕ) × (back : List ℕ) × (front ++ back ≡ order)
      × (concat (take k (map (pick doomed) (chunks fuel m order))) ≡ pick doomed front)
unfolding chunks pick
chunks-front doomed zero fuel m order = ([], order, refl, refl)
chunks-front doomed (suc k) zero m order = ([], order, refl, refl)
chunks-front doomed (suc k) (suc fuel) m [] = ([], [], refl, refl)
chunks-front doomed (suc k) (suc fuel) m (i ∷ order) =
    let (front, back, split, same) = chunks-front doomed k fuel m (drop m (i ∷ order)) in
    (
      take m (i ∷ order) ++ front,
      back,
      append_assoc (take m (i ∷ order)) front back
          ∙ ap (λ b. take m (i ∷ order) ++ b) split
          ∙ take-append-drop m (i ∷ order),
      ap (λ b. pick doomed (take m (i ∷ order)) ++ b) same
          ∙ sym (pick-append doomed (take m (i ∷ order)) front),
    )

-- All of them hold the whole order.
pub chunks-all :
    (doomed : List ObjectBrief) (fuel m : ℕ) (order : List ℕ)
    → length order ≤ fuel
    → concat (map (pick doomed) (chunks fuel (suc m) order)) ≡ pick doomed order
unfolding chunks pick
chunks-all doomed zero m [] b = refl
chunks-all doomed zero m (i ∷ order) b = absurd (omega (arith, b))
chunks-all doomed (suc fuel) m [] b = refl
chunks-all doomed (suc fuel) m (i ∷ order) b =
    ap (λ c. pick doomed (take (suc m) (i ∷ order)) ++ c)
      (chunks-all doomed fuel m (drop (suc m) (i ∷ order)) (omega (arith, b, length-drop m order)))
    ∙ sym (pick-append doomed (take (suc m) (i ∷ order)) (drop (suc m) (i ∷ order)))
    ∙ ap (pick doomed) (take-append-drop (suc m) (i ∷ order))
