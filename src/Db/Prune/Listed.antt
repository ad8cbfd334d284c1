-- ===== src/Db/Prune/Listed.antt =====
-- crates/garret-server/src/db.rs: the rows that `prunable` lists, and picking them by index.
use garret.Common.{
  ℕ, zero, suc, ◌≤◌, ◌≡◌, refl, sym, ap, subst, ◌∙◌, Bool, true, false, ◌&&◌, ◌||◌, some, List, [],
  ◌∷◌, map, arith, Text, text_eq, text_eq→≡, text_eq_refl, text_eq_sym, All, All-imp, ==_iff,
  filter, get_elem?, is_some, ◌==◌, inl, inr, Bool-cases, Option-cases, some-injective,
}
use garret.Db.Schema.{Row, ObjectBrief, brief, find, without, sort_by, insert_by}
use garret.Db.Rows.{Unique, find-without_ne}
use garret.Db.Candidates.{listed_rows}
use garret.Db.Prune.{pick}
use garret.Db.Prune.Edges.{Place-Distinct}
use garret.Db.Prune.Place.{gone, Distinct, Place}
use garret.Db.Prune.Batch.{Matches}
use garret.Db.Prune.Kahn.{times}

module _ (before : ObjectBrief → ObjectBrief → Bool) where
  gone-insert_by :
      (h : Text) (o : ObjectBrief) (os : List ObjectBrief)
      → gone h (insert_by before o os) ≡ text_eq o.store_path_hash h || gone h os
  unfolding insert_by
  gone-insert_by h o [] = refl
  gone-insert_by h o (x ∷ os) = elim (Bool-cases (before x o)) [
    | inl t ↦ rw (t, gone-insert_by h o os) (ground arith)
    | inr f ↦ rw f refl
  ]

  pub gone-sort_by : (h : Text) (os : List ObjectBrief) → gone h (sort_by before os) ≡ gone h os
  unfolding sort_by
  gone-sort_by h [] = refl
  gone-sort_by h (o ∷ os) =
      gone-insert_by h o (sort_by before os)
      ∙ ap (λ b. text_eq o.store_path_hash h || b) (gone-sort_by h os)

  insert_by-Distinct :
      (o : ObjectBrief) (os : List ObjectBrief)
      → gone o.store_path_hash os ≡ false
      → Distinct os
      → Distinct (insert_by before o os)
  unfolding insert_by
  insert_by-Distinct o [] g d = (g, d)
  insert_by-Distinct o (x ∷ os) g d = elim (Bool-cases (before x o)) [
    | inr f ↦ rw f (g, d)
    | inl t ↦ rw t (
      gone-insert_by x.store_path_hash o os
          ∙ ground (arith, g, d.0, text_eq_sym o.store_path_hash x.store_path_hash),
      insert_by-Distinct o os (ground (arith, g)) d.1,
    )
  ]

  pub sort_by-Distinct : (os : List ObjectBrief) → Distinct os → Distinct (sort_by before os)
  unfolding sort_by
  sort_by-Distinct [] d = tt
  sort_by-Distinct (o ∷ os) d =
      insert_by-Distinct o (sort_by before os) (gone-sort_by o.store_path_hash os ∙ d.0)
        (sort_by-Distinct os d.1)

module _ (p : Text → Bool) where
  abbrev pub chosen : List Row → List ObjectBrief
  chosen rows = map brief (filter (λ r. p r.store_path_hash) rows)

  pub gone-chosen :
      (h : Text) (rows : List Row) → gone h (chosen rows) ≡ is_some (find h rows) && p h
  unfolding find
  gone-chosen h [] = refl
  gone-chosen h (r ∷ rows) = elim (Bool-cases (text_eq r.store_path_hash h)) [
    | inl t ↦
        let same : p r.store_path_hash ≡ p h = ap p (text_eq→≡ r.store_path_hash h t) in
        ground (arith, gone-chosen h rows, t, same)
    | inr f ↦ ground (arith, gone-chosen h rows, f)
  ]

  pub chosen-Distinct : (rows : List Row) → Unique rows → Distinct (chosen rows)
  chosen-Distinct [] u = tt
  chosen-Distinct (r ∷ rows) u = elim (Bool-cases (p r.store_path_hash)) [
    | inr f ↦ rw f (chosen-Distinct rows u.1)
    | inl t ↦
        rw t (gone-chosen r.store_path_hash rows ∙ ground (arith, u.0), chosen-Distinct rows u.1)
  ]

-- The row that a brief is of.
abbrev pub IsOf : List Row → ObjectBrief → Type 0
IsOf rows o = (r : Row) × (find o.store_path_hash rows ≡ some r) × (r.file_size ≡ o.file_size)

pub briefs-IsOf : (rows : List Row) → Unique rows → All (λ r. IsOf rows (brief r)) rows
briefs-IsOf rows u = All-imp (λ r f. (r, f, refl)) rows (listed_rows rows u)

get_elem-All :
    (P : ObjectBrief → Type 0) (d : ℕ) (os : List ObjectBrief) {o : ObjectBrief}
    → All P os
    → get_elem? os d ≡ some o
    → P o
get_elem-All P d [] ps e = cc
get_elem-All P zero (x ∷ os) ps e = subst P (some-injective e) ps.0
get_elem-All P (suc d) (x ∷ os) {o} ps e = get_elem-All P d os {o = o} ps.1 e

pub gone-pick :
    (doomed : List ObjectBrief) (h : Text) (is : List ℕ)
    → gone h (pick doomed is) ≡ true
    → (j : ℕ) × (1 ≤ times j is) × Place doomed h j
unfolding pick
gone-pick doomed h [] m = cc
gone-pick doomed h (i ∷ is) m = elim (Option-cases (get_elem? doomed i)) [
  | inl n ↦ let (j, t, place) = gone-pick doomed h is (rw n at m) in (j, ground (arith, t), place)
  | inr (o, e) ↦ elim (Bool-cases (text_eq o.store_path_hash h)) [
    | inl t ↦ (i, ground arith, (o, e, text_eq→≡ o.store_path_hash h t))
    | inr f ↦
        let (j, t, place) = gone-pick doomed h is (rw (e, f) at m) in (j, ground (arith, t), place)
  ]
]

pub pick-gone :
    (doomed : List ObjectBrief) (h : Text) (is : List ℕ) (j : ℕ)
    → 1 ≤ times j is
    → Place doomed h j
    → gone h (pick doomed is) ≡ true
unfolding pick
pick-gone doomed h [] j m place = absurd (omega (arith, m))
pick-gone doomed h (i ∷ is) j m (o, e, s) = elim (Bool-cases (i == j)) [
  | inl t ↦
      let here : get_elem? doomed i ≡ some o =
        subst (λ k. get_elem? doomed k ≡ some o) (sym ((==_iff i j).0 t)) e in
      rw (here, s, text_eq_refl h) refl
  | inr f ↦ elim (Option-cases (get_elem? doomed i)) [
    | inl n ↦ rw n (pick-gone doomed h is j (ground (arith, m, f)) (o, e, s))
    | inr (x, n) ↦ rw (n, pick-gone doomed h is j (ground (arith, m, f)) (o, e, s)) (ground arith)
  ]
]

module _ (doomed : List ObjectBrief) (all : List Row) (distinct : Distinct doomed) where
  -- Objects picked by different indices are rows that are there when their turn comes.
  pub pick-Matches :
      (is : List ℕ) (rows : List Row)
      → All (IsOf all) doomed
      → ((j : ℕ) → times j is ≤ 1)
      → ((j : ℕ) (h : Text) → 1 ≤ times j is → Place doomed h j → find h rows ≡ find h all)
      → Matches rows (pick doomed is)
  unfolding pick
  pick-Matches [] rows a once same = tt
  pick-Matches (i ∷ is) rows a once same = elim (Option-cases (get_elem? doomed i)) [
    | inl n ↦ rw n (
        pick-Matches is rows a (λ j. ground (arith, once j))
          (λ j h t place. same j h (ground (arith, t)) place))
    | inr (o, e) ↦
        let (r, found, size) = get_elem-All (IsOf all) i doomed {o = o} a e in
        rw e (
          (r, same i o.store_path_hash (ground arith) (o, e, refl) ∙ found, size),
          pick-Matches is (without o.store_path_hash rows) a (λ j. ground (arith, once j))
              (λ j h t place.
                find-without_ne o.store_path_hash h rows (apart i j o h is e place (once i) t)
                ∙ same j h (ground (arith, t)) place),
        )
  ]
    where
      apart :
          (i j : ℕ) (o : ObjectBrief) (h : Text) (is : List ℕ)
          → get_elem? doomed i ≡ some o
          → Place doomed h j
          → times i (i ∷ is) ≤ 1
          → 1 ≤ times j is
          → text_eq o.store_path_hash h ≡ false
      apart i j o h is e place once t = elim (Bool-cases (text_eq o.store_path_hash h)) [
        | inr f ↦ f
        | inl same ↦
            let index : i ≡ j =
              Place-Distinct doomed h i j distinct (o, e, text_eq→≡ o.store_path_hash h same)
                place in
            absurd (ground (arith, once, t, ap (λ k. times k is) index))
      ]
