-- ===== src/Db/Prune/Front.antt =====
-- crates/garret-server/src/db.rs: a front of the order of a prune, and the references of its rows.
use garret.Common.{
  mem, ℕ, ◌+◌, ◌≤◌, ◌≡◌, ◌↔◌, sym, ap, subst, ◌∙◌, Bool, true, false, not, ◌&&◌, List, [], ◌∷◌,
  ◌++◌, arith, Text, text_eq_refl, All, All-imp, All-filter, length, is_some, leb, ◌==◌, inl, inr,
  Bool-cases,
}
use garret.Common.Result.{ok, ok-injective}
use garret.Db.Schema.{Ref, Database, ObjectBrief, brief, find, has, reference_hash, sort_by}
use garret.Db.Evict.{push_grace}
use garret.Db.Rows.{Unique}
use garret.Db.Candidates.{sort_by-All, map-All}
use garret.Db.Prune.{keep, prunable, named_before, references, row, order_of, referrers_first, pick}
use garret.Db.Prune.Mark.{keep_iff}
use garret.Db.Prune.Marking.{Kept, referred, links}
use garret.Db.Prune.Kahn.{times, IsSorted, times-append}
use garret.Db.Prune.Edges.{edges, link-edge}
use garret.Db.Prune.Place.{gone, Distinct, gone-Place, Place-gone}
use garret.Db.Prune.Listed.{
  gone-sort_by, sort_by-Distinct, gone-chosen, chosen-Distinct, chosen, IsOf, briefs-IsOf,
  gone-pick, pick-gone,
}

module _ (db : Database) (before now : ℕ) where
  stays : Text → Bool
  stays h = not (mem h (keep db before now))

  pub listed : List ObjectBrief
  listed = sort_by named_before (chosen stays db.objects)

  pub prunable-listed :
      {doomed : List ObjectBrief} → prunable db before now ≡ ok doomed → listed ≡ doomed
  unfolding prunable listed stays
  prunable-listed e = elim (Bool-cases (leb (before + push_grace) now)) [
    | inl t ↦ ok-injective (rw t at e)
    | inr f ↦ cc (rw f at e)
  ]

  gone-listed :
      (h : Text) → gone h listed ≡ is_some (find h db.objects) && not (mem h (keep db before now))
  unfolding listed stays
  gone-listed h =
      gone-sort_by named_before h (chosen stays db.objects) ∙ gone-chosen stays h db.objects

  pub listed-Distinct : Unique db.objects → Distinct listed
  unfolding listed
  listed-Distinct u =
      sort_by-Distinct named_before (chosen stays db.objects) (chosen-Distinct stays db.objects u)

  pub listed-IsOf : Unique db.objects → All (IsOf db.objects) listed
  unfolding listed stays
  listed-IsOf u = sort_by-All named_before (IsOf db.objects) (chosen stays db.objects) (
      map-All (IsOf db.objects) brief _ (
        All-filter (λ r. IsOf db.objects (brief r)) (λ r. stays r.store_path_hash) db.objects
          (briefs-IsOf db.objects u)))

  -- What prune lists is what no recent push and no live pin needs, and all of that: an object is
  -- on the list if and only if it is in the cache and is not kept.
  pub prunable_iff :
      {doomed : List ObjectBrief} (h : Text)
      → Unique db.objects
      → prunable db before now ≡ ok doomed
      → (gone h doomed ≡ true) ↔ ((has db h ≡ true) × ¬ Kept db before now h)
  prunable_iff h u e =
      subst (λ d. (gone h d ≡ true) ↔ ((has db h ≡ true) × ¬ Kept db before now h))
        (prunable-listed e)
        (
          (λ m. (
            ground (arith, m, gone-listed h),
            λ k. ground (arith, m, gone-listed h, (keep_iff db before now u h).1 k),
          )),
          (λ (there, lost). elim (Bool-cases (mem h (keep db before now))) [
            | inl t ↦ absurd (lost ((keep_iff db before now u h).0 t))
            | inr f ↦ gone-listed h ∙ ground (arith, there, f)
          ]),
        )

pub ordered :
    (db : Database) (doomed : List ObjectBrief) {order : List ℕ}
    → referrers_first db doomed ≡ ok order
    → (order_of (length doomed) (references db.object_refs doomed 0 doomed) ≡ order)
      × (length order ≡ length doomed)
unfolding referrers_first
ordered db doomed {order} e =
    let found = order_of (length doomed) (references db.object_refs doomed 0 doomed) in
    elim (Bool-cases (length found == length doomed)) [
      | inl t ↦
          let same : found ≡ order = ok-injective (rw t at e) in
          (same, ap length (sym same) ∙ ground (arith, t))
      | inr f ↦ cc (rw f at e)
    ]

sorted_front :
    (refs : List (List ℕ)) (before front back : List ℕ) (i j : ℕ)
    → IsSorted refs before (front ++ back)
    → 1 ≤ times j front
    → 1 ≤ times j (row refs i)
    → 1 ≤ times i before + times i front
sorted_front refs before [] back i j w t e = absurd (omega (arith, t))
sorted_front refs before (x ∷ front) back i j w t e = elim (Bool-cases (x == j)) [
  | inl s ↦
      let same : x ≡ j = ground (arith, s) in
      omega (arith, w.0 i (subst (λ k. 1 ≤ times k (row refs i)) (sym same) e))
  | inr f ↦ omega (
    arith,
    sorted_front refs (before ++ x ∷ []) front back i j w.1 (ground (arith, t, f)) e,
    times-append i before (x ∷ []),
  )
]

-- Every reference is a link.
pub links_self :
    (refs : List Ref) → All (λ (r : Ref). links refs r.referrer (reference_hash r) ≡ true) refs
links_self [] = tt
links_self (r ∷ refs) = (
  ground (arith, text_eq_refl r.referrer, text_eq_refl (reference_hash r)),
  All-imp (λ q l. ground (arith, l)) refs (links_self refs),
)

pub All-zip :
    (P Q : Ref → Type 0) (refs : List Ref) → All P refs → All Q refs → All (λ r. P r × Q r) refs
All-zip P Q [] p q = tt
All-zip P Q (r ∷ refs) p q = ((p.0, q.0), All-zip P Q refs p.1 q.1)

-- A deleted row is not in the way of a reference that is left: an earlier delete took the referrer,
-- or it is kept, and so is what it refers to.
pub front-closed :
    (db : Database) (before now : ℕ) (doomed : List ObjectBrief) (front back : List ℕ) (g h : Text)
    → Unique db.objects
    → Distinct doomed
    → prunable db before now ≡ ok doomed
    → IsSorted (references db.object_refs doomed 0 doomed) [] (front ++ back)
    → is_some (find g db.objects) ≡ true
    → links db.object_refs g h ≡ true
    → gone g (pick doomed front) ≡ false
    → gone h (pick doomed front) ≡ false
front-closed db before now doomed front back g h u d e w owned l here =
    elim (Bool-cases (gone h (pick doomed front))) [
      | inr f ↦ f
      | inl t ↦
          let (j, m, there) = gone-pick doomed h front t in
          let (listed, lost) =
            (prunable_iff db before now {doomed = doomed} h u e).0 (Place-gone doomed h j there) in
          let doomed_too : gone g doomed ≡ true =
            (prunable_iff db before now {doomed = doomed} g u e).1
              (owned, λ k. lost (referred k l)) in
          let (i, place) = gone-Place doomed g doomed_too in
          elim (Bool-cases (j == i)) [
            | inl s ↦
                let same : i ≡ j = ground (arith, s) in
                cc (
                  here,
                  pick-gone doomed g front i (subst (λ k. 1 ≤ times k front) (sym same) m) place,
                )
            | inr ne ↦
                let edge = link-edge db doomed d i j g h place there ne l in
                let taken : 1 ≤ times i front =
                  omega (arith, sorted_front (edges db doomed d) [] front back i j w m edge) in
                cc (here, pick-gone doomed g front i taken place)
          ]
    ]
