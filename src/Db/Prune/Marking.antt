-- ===== src/Db/Prune/Marking.antt =====
-- crates/garret-server/src/db.rs: what a prune keeps, and one step of the search for it.
use garret.Common.{
  mem, mem_same, ℕ, suc, ◌+◌, ◌≤◌, ◌≡◌, ◌⊎◌, refl, ap, ◌∙◌, Bool, true, false, not, ◌&&◌, ◌||◌,
  some, List, [], ◌∷◌, ◌++◌, map, arith, Text, text_eq, text_eq→≡, text_eq_refl, text_eq_sym,
  filter, any, length, length-append, inl, inr, Bool-cases,
}
use garret.Db.Schema.{Row, Ref, Database, find, reference_hash}
use garret.Db.Evict.{is_live}
use garret.Db.Prune.{joined, add, union}

-- A reference of `g` to `h`.
abbrev pub links : List Ref → Text → Text → Bool
links refs g h = any (λ r. text_eq r.referrer g && text_eq h (reference_hash r)) refs

-- A hash stays with a prune: an object pushed since the cutoff, a live pin's, or one that something
-- that stays refers to.
pub data Kept (db : Database) (before now : ℕ) : Text → Type 0 where
  pushed :
      {h : Text} {r : Row}
      → find h db.objects ≡ some r
      → before ≤ r.pushed_at
      → Kept db before now h
  pinned :
      {h : Text}
      → any (λ p. is_live now p && text_eq h p.store_path_hash) db.pins ≡ true
      → Kept db before now h
  referred :
      {g h : Text} → Kept db before now g → links db.object_refs g h ≡ true → Kept db before now h

pub any-append :
    {A : Type 0} (p : A → Bool) (xs ys : List A) → any p (xs ++ ys) ≡ any p xs || any p ys
any-append p [] ys = refl
any-append p (x ∷ xs) ys = ground (arith, any-append p xs ys)

pub mem-map-filter :
    {A : Type 0} (f : A → Text) (p : A → Bool) (h : Text) (xs : List A)
    → mem h (map f (filter p xs)) ≡ any (λ x. p x && text_eq h (f x)) xs
mem-map-filter f p h [] = refl
mem-map-filter f p h (x ∷ xs) = elim (Bool-cases (p x)) [
  | inl t ↦ rw (t, mem-map-filter f p h xs)
  | inr n ↦ rw (n, mem-map-filter f p h xs)
]

-- How much of `all` the table lacks.
abbrev pub unseen : List Text → List Text → ℕ
unseen all table = length (filter (λ u. not (mem u table)) all)

unseen_le : (all table : List Text) (h : Text) → unseen all (h ∷ table) ≤ unseen all table
unseen_le [] table h = omega arith
unseen_le (u ∷ all) table h = ground (arith, unseen_le all table h)

unseen_lt :
    (all table : List Text) (h : Text)
    → mem h all ≡ true
    → mem h table ≡ false
    → suc (unseen all (h ∷ table)) ≤ unseen all table
unseen_lt [] table h m n = cc
unseen_lt (u ∷ all) table h m n = elim (Bool-cases (text_eq h u)) [
  | inl t ↦ ground (arith, t, n, unseen_le all table h, text_eq_sym h u, mem_same u h table)
  | inr f ↦ ground (arith, f, n, m, unseen_lt all table h, text_eq_sym h u)
]

add-mem : (g h : Text) (k : List Text × List Text) → mem g (add h k).1 ≡ text_eq g h || mem g k.1
unfolding add
add-mem g h k = ground (arith, mem_same g h k.1)

-- What is new to the table joins the queue, and nothing else does.
add-queue :
    (g h : Text) (k : List Text × List Text)
    → mem g (add h k).0 ≡ mem g k.0 || (text_eq g h && not (mem g k.1))
unfolding add
add-queue g h k = ground (arith, mem_same g h k.1, any-append (text_eq g) k.0 (h ∷ []))

add-measure :
    (all : List Text) (h : Text) (k : List Text × List Text)
    → mem h all ≡ true
    → length (add h k).0 + unseen all (add h k).1 ≤ length k.0 + unseen all k.1
unfolding add
add-measure all h k m = ground (arith, length-append k.0 (h ∷ []), unseen_lt all k.1 h m)

pub union-mem :
    (g : Text) (hs : List Text) (k : List Text × List Text)
    → mem g (union hs k).1 ≡ mem g hs || mem g k.1
unfolding union
union-mem g [] k = refl
union-mem g (h ∷ hs) k = union-mem g hs (add h k) ∙ ground (arith, add-mem g h k)

pub union-queue :
    (g : Text) (hs : List Text) (k : List Text × List Text)
    → mem g (union hs k).0 ≡ mem g k.0 || (mem g hs && not (mem g k.1))
unfolding union
union-queue g [] k = ground arith
union-queue g (h ∷ hs) k =
    union-queue g hs (add h k) ∙ ground (arith, add-mem g h k, add-queue g h k)

pub union-measure :
    (all hs : List Text) (k : List Text × List Text)
    → ((h : Text) → mem h hs ≡ true → mem h all ≡ true)
    → length (union hs k).0 + unseen all (union hs k).1 ≤ length k.0 + unseen all k.1
unfolding union
union-measure all [] k s = omega arith
union-measure all (h ∷ hs) k s = omega (
  arith,
  union-measure all hs (add h k) (λ g m. s g (ground (arith, m))),
  add-measure all h k (s h (ground (arith, text_eq_refl h))),
)

pub joined-mem : (refs : List Ref) (g h : Text) → mem h (joined refs g) ≡ links refs g h
joined-mem refs g h = mem-map-filter reference_hash (λ r. text_eq r.referrer g) h refs

links_same :
    (refs : List Ref) (g g' h : Text) → text_eq g g' ≡ true → links refs g h ≡ links refs g' h
links_same refs g g' h e = ap (λ x. links refs x h) (text_eq→≡ g g' e)

-- The queue is part of the table, and what left it has its references in the table.
pub record IsMarking (refs : List Ref) (k : List Text × List Text) : Type 0 where
  pub queued : (h : Text) → mem h k.0 ≡ true → mem h k.1 ≡ true
  pub expanded :
      (g h : Text)
      → mem g k.1 ≡ true
      → links refs g h ≡ true
      → (mem g k.0 ≡ true) ⊎ (mem h k.1 ≡ true)

pub step-IsMarking :
    (refs : List Ref) (h : Text) (queue table : List Text)
    → IsMarking refs (h ∷ queue, table)
    → IsMarking refs (union (joined refs h) (queue, table))
step-IsMarking refs h queue table w = record {
  queued = λ g m. ground (
    arith,
    m,
    union-queue g (joined refs h) (queue, table),
    union-mem g (joined refs h) (queue, table),
    w.queued g,
  );
  expanded = λ g t m l. ground (
    arith,
    m,
    w.expanded g t,
    l,
    links_same refs g h t,
    joined-mem refs h t,
    union-queue g (joined refs h) (queue, table),
    union-mem g (joined refs h) (queue, table),
    union-mem t (joined refs h) (queue, table),
  );
}
