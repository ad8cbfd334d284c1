-- ===== src/Db/Prune/Closed.antt =====
-- crates/garret-server/src/db.rs: prune, from the mark to the last batch.
use garret.Common.{
  append_nil, ℕ, ◌≤◌, ◌<◌, ◌≡◌, refl, sym, ap, subst, ◌∙◌, true, false, none, List, [], ◌++◌, map,
  arith, if◌then◌else◌, Text, text_eq, All, All-imp, length, take, is_some, ltb, inl, inr,
  Bool-cases,
}
use garret.Common.Result.{ok, ok-injective, ◌>>=◌, >>=-eq-ok}
use garret.Db.Schema.{Ref, Database, ObjectBrief, find, reference_hash}
use garret.Db.WellFormed.{IsWellFormed}
use garret.Db.Prune.{
  prunable, references, referrers_first, pick, chunks, prune_batch, batches, delete_batches,
  delete_pruned,
}
use garret.Db.Prune.Marking.{links}
use garret.Db.Prune.Kahn.{times, IsSorted, times-append}
use garret.Db.Prune.Order.{order_of-IsSorted, order_of-times}
use garret.Db.Prune.Edges.{references-Within, referrers_first-acyclic}
use garret.Db.Prune.Place.{gone, Distinct, gone-Place, Place-gone, Place-lt}
use garret.Db.Prune.Deletes.{
  concat, delete_batches-objects, delete_batches-refs, delete_batches-IsWellFormed, find-left,
  refs_left-All, chunks-front, chunks-all,
}
use garret.Db.Prune.Batch.{Matches, refs_left}
use garret.Db.Prune.Listed.{IsOf, gone-pick, pick-gone, pick-Matches}
use garret.Db.Prune.Front.{
  prunable-listed, listed-Distinct, listed-IsOf, ordered, links_self, All-zip, front-closed,
}

module _ (db : Database) (before now : ℕ) (w : IsWellFormed db) {doomed : List ObjectBrief}
    (listing : prunable db before now ≡ ok doomed) where
  pub distinct : Distinct doomed
  distinct =
      subst Distinct (prunable-listed db before now listing)
        (listed-Distinct db before now w.unique)

  pub all-IsOf : All (IsOf db.objects) doomed
  all-IsOf =
      subst (All (IsOf db.objects)) (prunable-listed db before now listing)
        (listed-IsOf db before now w.unique)

  picked-Matches :
      (order front back : List ℕ)
      → ((j : ℕ) → times j order ≡ (if ltb j (length doomed) then 1 else 0))
      → front ++ back ≡ order
      → Matches db.objects (pick doomed front)
  picked-Matches order front back once split =
      pick-Matches doomed db.objects distinct front db.objects all-IsOf
        (λ j. ground (arith, once j, times-append j front back, ap (times j) split))
        (λ j h t place. refl)

  -- What an order is known for, and a front of it that some batches hold.
  pub Front : List ℕ → List ObjectBrief → Type 0
  Front order deleted =
      (front : List ℕ) × (back : List ℕ) × (deleted ≡ pick doomed front)
      × (front ++ back ≡ order)
      × IsSorted (references db.object_refs doomed 0 doomed) [] order
      × ((j : ℕ) → times j order ≡ (if ltb j (length doomed) then 1 else 0))

  Front-any :
      (order front back : List ℕ)
      → referrers_first db doomed ≡ ok order
      → front ++ back ≡ order
      → Front order (pick doomed front)
  unfolding Front
  Front-any order front back found whole =
      let (same, full) = ordered db doomed {order = order} found in
      let refs = references db.object_refs doomed 0 doomed in
      let within = references-Within db.object_refs doomed 0 doomed in
      (
        front,
        back,
        refl,
        whole,
        subst (IsSorted refs []) same (order_of-IsSorted refs (length doomed) within),
        λ j.
            ap (times j) (sym same)
            ∙ order_of-times refs (length doomed) within (ap length same ∙ full) j,
      )

  pub Front-IsWellFormed :
      (bs : List (List ObjectBrief)) (order : List ℕ)
      → Front order (concat bs)
      → IsWellFormed (delete_batches bs db)
  unfolding Front
  Front-IsWellFormed bs order (front, back, picked, whole, sorted, once) =
      delete_batches-IsWellFormed bs db w
        (subst (Matches db.objects) (sym picked) (picked-Matches order front back once whole))

  Front-refs :
      (bs : List (List ObjectBrief)) (order : List ℕ)
      → Front order (concat bs)
      → All
          (λ (r : Ref).
            find (reference_hash r) (delete_batches bs db).objects
            ≡ find (reference_hash r) db.objects)
          (delete_batches bs db).object_refs
  unfolding Front
  Front-refs bs order (front, back, picked, whole, sorted, once) =
      subst
        (All (λ (r : Ref).
          find (reference_hash r) (delete_batches bs db).objects
          ≡ find (reference_hash r) db.objects))
        (sym (delete_batches-refs bs db))
        (All-imp
          (λ r ((owned, l), here).
            let kept : gone (reference_hash r) (concat bs) ≡ false =
              ap (gone (reference_hash r)) picked
              ∙ front-closed db before now doomed front back r.referrer (reference_hash r) w.unique
                  distinct listing
                  (subst (IsSorted (references db.object_refs doomed 0 doomed) []) (sym whole)
                    sorted)
                  owned l (ap (gone r.referrer) (sym picked) ∙ here) in
            ap (find (reference_hash r)) (delete_batches-objects bs db)
            ∙ find-left (concat bs) db.objects (reference_hash r)
            ∙ ground (arith, kept))
          (refs_left (concat bs) db.object_refs)
          (refs_left-All
            (λ (r : Ref).
              (is_some (find r.referrer db.objects) ≡ true)
              × (links db.object_refs r.referrer (reference_hash r) ≡ true))
            (concat bs) db.object_refs
            (All-zip (λ (r : Ref). is_some (find r.referrer db.objects) ≡ true)
              (λ (r : Ref). links db.object_refs r.referrer (reference_hash r) ≡ true)
              db.object_refs w.refs_owned (links_self db.object_refs))))

  Front-taken :
      {split : List (List ObjectBrief)} (k : ℕ)
      → batches db doomed ≡ ok split
      → (order : List ℕ) × Front order (concat (take k split))
  unfolding batches
  Front-taken {split} k e =
      let (order, found, result) = >>=-eq-ok (referrers_first db doomed) _ e in
      let (front, back, whole, picked) = chunks-front doomed k (length order) prune_batch order in
      let hashes : pick doomed front ≡ concat (take k split) =
        sym picked ∙ ap (λ s. concat (take k s)) (ok-injective result) in
      (order, subst (Front order) hashes (Front-any order front back found whole))

  -- After each of prune's transactions, also when it stops between two of them, the tables are well
  -- formed, and no reference that is left lost the row that it refers to.
  pub batches-closed :
      {split : List (List ObjectBrief)} (k : ℕ)
      → batches db doomed ≡ ok split
      → IsWellFormed (delete_batches (take k split) db)
        × All
            (λ (r : Ref).
              find (reference_hash r) (delete_batches (take k split) db).objects
              ≡ find (reference_hash r) db.objects)
            (delete_batches (take k split) db).object_refs
  batches-closed {split} k e =
      let (order, front) = Front-taken {split = split} k e in
      (Front-IsWellFormed (take k split) order front, Front-refs (take k split) order front)

  gone_all :
      (h : Text) (order : List ℕ)
      → ((j : ℕ) → times j order ≡ (if ltb j (length doomed) then 1 else 0))
      → gone h (pick doomed order) ≡ gone h doomed
  gone_all h order once = elim (Bool-cases (gone h doomed)) [
    | inl t ↦
        let (j, place) = gone-Place doomed h t in
        let here : 1 ≤ times j order = ground (arith, once j, Place-lt doomed h j place) in
        pick-gone doomed h order j here place ∙ sym t
    | inr f ↦ elim (Bool-cases (gone h (pick doomed order))) [
      | inr n ↦ n ∙ sym f
      | inl t ↦
          let (j, m, place) = gone-pick doomed h order t in t ∙ sym (Place-gone doomed h j place)
    ]
  ]

  -- The batches of a prune that succeeds, and the hashes that they hold.
  pub whole_order :
      {after : Database}
      → delete_pruned db doomed ≡ ok after
      → (split : List (List ObjectBrief)) × (order : List ℕ) × Front order (concat split)
        × ((h : Text) → gone h (concat split) ≡ gone h doomed)
        × (delete_batches split db ≡ after)
  unfolding delete_pruned batches Front
  whole_order {after} e =
      let (split, batched, last) = >>=-eq-ok (batches db doomed) _ e in
      let (order, found, result) = >>=-eq-ok (referrers_first db doomed) _ batched in
      let any = Front-any order order [] found (append_nil order) in
      let taken : concat split ≡ pick doomed order =
        ap concat (sym (ok-injective result))
        ∙ chunks-all doomed (length order) 499 order (omega arith) in
      (
        split,
        order,
        subst (Front order) (sym taken) any,
        λ h. ap (gone h) taken ∙ gone_all h order any.5,
        ok-injective last,
      )

  -- A prune that succeeds takes what it listed and nothing else.
  pub delete_pruned-find :
      {after : Database}
      → delete_pruned db doomed ≡ ok after
      → (h : Text) → find h after.objects ≡ (if gone h doomed then none else find h db.objects)
  delete_pruned-find {after} e h =
      let (split, order, front, same, last) = whole_order {after = after} e in
      ap (λ (d : Database). find h d.objects) (sym last)
      ∙ ap (find h) (delete_batches-objects split db)
      ∙ find-left (concat split) db.objects h
      ∙ ap (λ b. if b then none else find h db.objects) (same h)

  -- Prune does not fail on the references of store paths, which have no cycle but an object's
  -- reference to itself.
  pub delete_pruned-acyclic :
      (rank : Text → ℕ)
      → ((g h : Text) → links db.object_refs g h ≡ true → text_eq g h ≡ false → rank g < rank h)
      → (after : Database) × (delete_pruned db doomed ≡ ok after)
  unfolding delete_pruned batches
  delete_pruned-acyclic rank up =
      let (order, found) = referrers_first-acyclic db doomed distinct rank up in
      (
        _,
        ap
            (λ r.
              (r >>= λ order. ok (map (pick doomed) (chunks (length order) prune_batch order)))
              >>= λ split. ok (delete_batches split db))
            found,
      )
