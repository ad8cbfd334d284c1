-- ===== src/Db/Prune/Edges.antt =====
-- crates/garret-server/src/db.rs: the edges that `referrers_first` orders, against the references
-- of the objects.
use garret.Common.{
  mem, ℕ, zero, suc, ◌+◌, ◌≤◌, ◌<◌, ◌≡◌, refl, sym, ap, subst, ◌∙◌, true, false, Option, none, some,
  List, [], ◌∷◌, arith, Text, text_eq, text_eq→≡, text_eq_refl, length, get_elem?, ◌==◌, inl, inr,
  Bool-cases, some-injective,
}
use garret.Common.Result.{ok}
use garret.Db.Schema.{Ref, Database, ObjectBrief}
use garret.Db.Prune.{joined, index, edge, inside, references, row, referrers_first, order_of}
use garret.Db.Prune.Marking.{links, joined-mem}
use garret.Db.Prune.Kahn.{times, Within}
use garret.Db.Prune.Order.{order_of-acyclic, row_inside}
use garret.Db.Prune.Place.{Distinct, Place, index-Place, index_at, inside-All}

edge-times :
    (i j : ℕ) (found : Option ℕ) (rest : List ℕ) → times j rest ≤ times j (edge i found rest)
edge-times i j none rest = omega arith
edge-times i j (some k) rest = ground arith

-- The edges from an object are the references to the others that are listed.
inside-times :
    (doomed : List ObjectBrief) (i j : ℕ) (h : Text) (hs : List Text)
    → index 0 doomed h ≡ some j
    → (j == i) ≡ false
    → mem h hs ≡ true
    → 1 ≤ times j (inside doomed i hs)
unfolding inside
inside-times doomed i j h [] e ne m = cc
inside-times doomed i j h (x ∷ hs) e ne m = elim (Bool-cases (text_eq h x)) [
  | inl t ↦
      let here : index 0 doomed x ≡ some j =
        subst (λ y. index 0 doomed y ≡ some j) (text_eq→≡ h x t) e in
      rw (here, ne) (ground arith)
  | inr f ↦ omega (
    arith,
    inside-times doomed i j h hs e ne (rw f at m),
    edge-times i j (index 0 doomed x) (inside doomed i hs),
  )
]

abbrev Linked : List ObjectBrief → ℕ → ℕ → List Text → Type 0
Linked doomed i j hs =
    (h : Text) × (mem h hs ≡ true) × (index 0 doomed h ≡ some j) × ((j == i) ≡ false)

Linked-cons :
    (doomed : List ObjectBrief) (i j : ℕ) (x : Text) (hs : List Text)
    → Linked doomed i j hs
    → Linked doomed i j (x ∷ hs)
Linked-cons doomed i j x hs (h, listed, at, ne) = (h, ground (arith, listed), at, ne)

edge-Linked :
    (doomed : List ObjectBrief) (i j : ℕ) (x : Text) (hs : List Text) (found : Option ℕ)
    → index 0 doomed x ≡ found
    → (1 ≤ times j (inside doomed i hs) → Linked doomed i j hs)
    → 1 ≤ times j (edge i found (inside doomed i hs))
    → Linked doomed i j (x ∷ hs)
edge-Linked doomed i j x hs none e rest m = Linked-cons doomed i j x hs (rest m)
edge-Linked doomed i j x hs (some k) e rest m = elim (Bool-cases (k == i)) [
  | inl t ↦ Linked-cons doomed i j x hs (rest (rw t at m))
  | inr f ↦ elim (Bool-cases (k == j)) [
    | inl t ↦
        let same : k ≡ j = ground (arith, t) in
        (x, ground (arith, text_eq_refl x), e ∙ ap some same, ap (λ n. n == i) (sym same) ∙ f)
    | inr n ↦ Linked-cons doomed i j x hs (rest (ground (arith, rw f at m, n)))
  ]
]

times-inside :
    (doomed : List ObjectBrief) (i j : ℕ) (hs : List Text)
    → 1 ≤ times j (inside doomed i hs)
    → Linked doomed i j hs
unfolding inside
times-inside doomed i j [] m = absurd (omega (arith, m))
times-inside doomed i j (x ∷ hs) m =
    edge-Linked doomed i j x hs (index 0 doomed x) refl (times-inside doomed i j hs) m

row-references :
    (refs : List Ref) (doomed : List ObjectBrief) (k i d : ℕ) (objects : List ObjectBrief)
    {o : ObjectBrief}
    → k ≡ i + d
    → get_elem? objects d ≡ some o
    → row (references refs doomed i objects) d ≡ inside doomed k (joined refs o.store_path_hash)
unfolding references
row-references refs doomed k i d [] s e = cc
row-references refs doomed k i zero (x ∷ objects) {o} s e =
    let same : x ≡ o = some-injective e in
    let place : i ≡ k = omega (arith, s) in
    ap (λ p. inside doomed i (joined refs p.store_path_hash)) same
    ∙ ap (λ n. inside doomed n (joined refs o.store_path_hash)) place
row-references refs doomed k i (suc d) (x ∷ objects) {o} s e =
    row-references refs doomed k (suc i) d objects {o = o} (omega (arith, s)) e

get_elem_lt :
    (d : ℕ) (os : List ObjectBrief) → d < length os → (o : ObjectBrief) × (get_elem? os d ≡ some o)
get_elem_lt d [] b = absurd (omega (arith, b))
get_elem_lt zero (o ∷ os) b = (o, refl)
get_elem_lt (suc d) (o ∷ os) b = get_elem_lt d os (omega (arith, b))

-- A hash is listed in one place.
pub Place-Distinct :
    (doomed : List ObjectBrief) (h : Text) (i j : ℕ)
    → Distinct doomed
    → Place doomed h i
    → Place doomed h j
    → i ≡ j
Place-Distinct doomed h i j d p q =
    let first : some (0 + i) ≡ some (0 + j) =
      sym (index_at 0 doomed h i d p) ∙ index_at 0 doomed h j d q in
    omega (arith, some-injective first)

abbrev rank_at : (Text → ℕ) → Option ObjectBrief → ℕ
rank_at rank none = 0
rank_at rank (some o) = rank o.store_path_hash

length-references :
    (refs : List Ref) (doomed : List ObjectBrief) (i : ℕ) (objects : List ObjectBrief)
    → length (references refs doomed i objects) ≡ length objects
unfolding references
length-references refs doomed i [] = refl
length-references refs doomed i (x ∷ objects) =
    omega (arith, length-references refs doomed (suc i) objects)

pub references-Within :
    (refs : List Ref) (doomed : List ObjectBrief) (i : ℕ) (objects : List ObjectBrief)
    → Within (length doomed) (references refs doomed i objects)
unfolding references
references-Within refs doomed i [] = tt
references-Within refs doomed i (o ∷ objects) = (
  inside-All doomed i (joined refs o.store_path_hash),
  references-Within refs doomed (suc i) objects,
)

module _ (db : Database) (doomed : List ObjectBrief) (distinct : Distinct doomed) where
  abbrev pub edges : List (List ℕ)
  edges = references db.object_refs doomed 0 doomed

  row-edges :
      (i : ℕ) {o : ObjectBrief}
      → get_elem? doomed i ≡ some o
      → row edges i ≡ inside doomed i (joined db.object_refs o.store_path_hash)
  row-edges i {o} at = row-references db.object_refs doomed i 0 i doomed {o = o} (omega arith) at

  pub link-edge :
      (i j : ℕ) (g h : Text)
      → Place doomed g i
      → Place doomed h j
      → (j == i) ≡ false
      → links db.object_refs g h ≡ true
      → 1 ≤ times j (row edges i)
  link-edge i j g h (o, at, same) there ne l =
      let listed : mem h (joined db.object_refs o.store_path_hash) ≡ true =
        joined-mem db.object_refs o.store_path_hash h
        ∙ ap (λ t. links db.object_refs t h) same
        ∙ l in
      let zeroth : 0 + j ≡ j = omega arith in
      subst (λ js. 1 ≤ times j js) (sym (row-edges i {o = o} at))
        (inside-times doomed i j h (joined db.object_refs o.store_path_hash)
          (index_at 0 doomed h j distinct there ∙ ap some zeroth) ne listed)

  -- The hash that an edge leads to.
  edge-link :
      (i j : ℕ)
      → 1 ≤ times j (row edges i)
      → (g h : Text) × Place doomed g i
        × Place doomed h j
        × (links db.object_refs g h ≡ true)
        × (text_eq g h ≡ false)
  edge-link i j m =
      let (o, at) =
        get_elem_lt i doomed (
          omega
            (arith, row_inside edges i j m, length-references db.object_refs doomed 0 doomed)) in
      let g = o.store_path_hash in
      let (h, listed, found, ne) =
        times-inside doomed i j (joined db.object_refs g)
          (subst (λ js. 1 ≤ times j js) (row-edges i {o = o} at) m) in
      let (d, same, place) = index-Place 0 doomed h {j = j} found in
      let there : d ≡ j = omega (arith, same) in
      let apart : text_eq g h ≡ false = elim (Bool-cases (text_eq g h)) [
        | inr f ↦ f
        | inl t ↦
            let first : some (0 + i) ≡ some j =
              sym (index_at 0 doomed h i distinct (o, at, text_eq→≡ g h t)) ∙ found in
            absurd (ground (arith, ne, some-injective first))
      ] in
      (
        g,
        h,
        (o, at, refl),
        subst (Place doomed h) there place,
        sym (joined-mem db.object_refs g h) ∙ listed,
        apart,
      )

  module _ (rank : Text → ℕ)
      (up : (g h : Text)
        → links db.object_refs g h ≡ true
        → text_eq g h ≡ false
        → rank g < rank h) where
    ranks : ℕ → ℕ
    ranks i = rank_at rank (get_elem? doomed i)

    ranks-Place : (i : ℕ) (g : Text) → Place doomed g i → ranks i ≡ rank g
    unfolding ranks
    ranks-Place i g (o, at, same) = ap (rank_at rank) at ∙ ap rank same

    -- Without a cycle of references, the order is found.
    pub referrers_first-acyclic : (order : List ℕ) × (referrers_first db doomed ≡ ok order)
    unfolding referrers_first
    referrers_first-acyclic =
        let full : length (order_of (length doomed) edges) ≡ length doomed =
          order_of-acyclic edges (length doomed) (references-Within db.object_refs doomed 0 doomed)
            ranks
            (λ i j m.
              let (g, h, here, there, l, apart) = edge-link i j m in
              omega (arith, ranks-Place i g here, ranks-Place j h there, up g h l apart))
            (length-references db.object_refs doomed 0 doomed) in
        (order_of (length doomed) edges, ground (arith, full))
