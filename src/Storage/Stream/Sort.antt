-- ===== src/Storage/Stream/Sort.antt =====
-- crates/garret-server/src/storage.rs: sorting the completed parts of an upload by their numbers.
use garret.Common.{
  ℕ, ◌+◌, ◌≡◌, refl, sym, ap, ◌∙◌, true, false, List, [], ◌∷◌, ◌++◌, arith, if◌then◌else◌, ◌==◌,
  inl, inr, Bool-cases,
}
use garret.Db.Schema.{sort_by, insert_by}
use garret.Storage.Stream.{Part, earlier}

abbrev pub insert : Part → List Part → List Part
insert = insert_by earlier

abbrev pub sort : List Part → List Part
sort = sort_by earlier

-- How many parts have a number.
abbrev pub numbered : ℕ → List Part → ℕ
numbered n [] = 0
numbered n (p ∷ ps) = (if p.number == n then 1 else 0) + numbered n ps

pub insert_later :
    (p x : Part) (ps : List Part) → earlier x p ≡ true → insert p (x ∷ ps) ≡ x ∷ insert p ps
unfolding insert_by
insert_later p x ps e = rw e refl

insert_first : (p x : Part) (ps : List Part) → earlier x p ≡ false → insert p (x ∷ ps) ≡ p ∷ x ∷ ps
unfolding insert_by
insert_first p x ps e = rw e refl

-- A part that goes first, and one that goes behind the head or not.
first_then :
    (p q x : Part) (ps : List Part)
    → earlier x p ≡ false
    → earlier p q ≡ true
    → insert p (insert q (x ∷ ps)) ≡ insert q (insert p (x ∷ ps))
first_then p q x ps px pq =
    let right : insert q (insert p (x ∷ ps)) ≡ p ∷ insert q (x ∷ ps) =
      ap (insert q) (insert_first p x ps px) ∙ insert_later q p (x ∷ ps) pq in
    elim (Bool-cases (earlier x q)) [
      | inl xq ↦
          ap (insert p) (insert_later q x ps xq)
          ∙ insert_first p x (insert q ps) px
          ∙ ap (λ r. p ∷ r) (sym (insert_later q x ps xq))
          ∙ sym right
      | inr qx ↦
          ap (insert p) (insert_first q x ps qx)
          ∙ insert_first p q (x ∷ ps) (ground (arith, pq))
          ∙ ap (λ r. p ∷ r) (sym (insert_first q x ps qx))
          ∙ sym right
    ]

insert_nil :
    (p q : Part) → (p.number == q.number) ≡ false → insert p (insert q []) ≡ insert q (insert p [])
unfolding insert_by
insert_nil p q ne = ground (arith, ne)

insert_swap :
    (p q : Part) (ps : List Part)
    → (p.number == q.number) ≡ false
    → insert p (insert q ps) ≡ insert q (insert p ps)
insert_swap p q [] ne = insert_nil p q ne
insert_swap p q (x ∷ ps) ne = elim (Bool-cases (earlier x p)) [
  | inr px ↦ elim (Bool-cases (earlier p q)) [
    | inl pq ↦ first_then p q x ps px pq
    | inr qp ↦ sym (first_then q p x ps (ground (arith, px, qp)) (ground (arith, qp, ne)))
  ]
  | inl xp ↦ elim (Bool-cases (earlier x q)) [
    | inr qx ↦ sym (first_then q p x ps qx (ground (arith, qx, xp)))
    | inl xq ↦
        ap (insert p) (insert_later q x ps xq)
        ∙ insert_later p x (insert q ps) xp
        ∙ ap (λ r. x ∷ r) (insert_swap p q ps ne)
        ∙ sym (insert_later q x (insert p ps) xq)
        ∙ ap (insert q) (sym (insert_later p x ps xp))
  ]
]

numbered-insert :
    (n : ℕ) (p : Part) (ps : List Part) → numbered n (insert p ps) ≡ numbered n (p ∷ ps)
unfolding insert_by
numbered-insert n p [] = refl
numbered-insert n p (x ∷ ps) = elim (Bool-cases (earlier x p)) [
  | inl t ↦ rw t (omega (arith, numbered-insert n p ps))
  | inr f ↦ rw f refl
]

pub numbered-sort : (n : ℕ) (ps : List Part) → numbered n (sort ps) ≡ numbered n ps
unfolding sort_by
numbered-sort n [] = refl
numbered-sort n (p ∷ ps) = numbered-insert n p (sort ps) ∙ omega (arith, numbered-sort n ps)

-- Sorting does not see where a part stands, as long as no other has its number.
pub sort-middle :
    (p : Part) (front back : List Part)
    → numbered p.number front ≡ 0
    → sort (front ++ p ∷ back) ≡ insert p (sort (front ++ back))
unfolding sort_by
sort-middle p [] back n = refl
sort-middle p (x ∷ front) back n =
    ap (insert x) (sort-middle p front back (ground (arith, n)))
    ∙ insert_swap x p (sort (front ++ back)) (ground (arith, n))

pub numbered-append :
    (n : ℕ) (ps qs : List Part) → numbered n (ps ++ qs) ≡ numbered n ps + numbered n qs
numbered-append n [] qs = omega arith
numbered-append n (p ∷ ps) qs = omega (arith, numbered-append n ps qs)
