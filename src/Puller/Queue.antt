-- ===== src/Puller/Queue.antt =====
-- crates/garret-puller/src/main.rs: what a burst of hits leaves to be flushed.
use garret.Common.{
  mem, mem_same, mem-append, ℕ, ◌+◌, ◌≤◌, ◌≡◌, refl, ap, ◌∙◌, Bool, true, false, not, ◌&&◌, ◌||◌,
  List, [], ◌∷◌, ◌++◌, if◌then◌else◌, Text, text_eq, any, leb, arith, inl, inr, Bool-cases,
}
use garret.Puller.{Bumps, inserted_hash, hit}

pub record Hit : Type 0 where
  pub hash : Text
  pub last_accessed_at : ℕ
  pub now : ℕ

abbrev pub hit_all : Bumps → List Hit → Bumps
hit_all b [] = b
hit_all b (x ∷ hits) = hit_all (hit b x.hash x.last_accessed_at x.now) hits

-- A hit on a path whose row was stale.
abbrev pub is_stale_hit : ℕ → Text → Hit → Bool
is_stale_hit debounce h x = text_eq h x.hash && not (leb x.now (x.last_accessed_at + debounce))

-- How often a text is in a list.
abbrev pub times : Text → List Text → ℕ
times h [] = 0
times h (x ∷ xs) = (if text_eq h x then 1 else 0) + times h xs

times-append : (h : Text) (xs ys : List Text) → times h (xs ++ ys) ≡ times h xs + times h ys
times-append h [] ys = omega arith
times-append h (x ∷ xs) ys = omega (arith, times-append h xs ys)

times_absent : (h : Text) (xs : List Text) → mem h xs ≡ false → times h xs ≡ 0
times_absent h [] e = refl
times_absent h (x ∷ xs) e = ground (arith, times_absent h xs)

or_false : (a b : Bool) → b ≡ false → a ≡ a || b
or_false a b e = ground (arith, e)

inserted_hash-mem :
    (h k : Text) (pending : List Text)
    → mem h (inserted_hash k pending) ≡ mem h pending || text_eq h k
inserted_hash-mem h k pending = elim (Bool-cases (mem k pending)) [
  | inr absent ↦
      rw absent (mem-append h pending (k ∷ []) ∙ or_nothing (mem h pending) (text_eq h k))
  | inl there ↦ rw there (elim (Bool-cases (text_eq h k)) [
    | inr other ↦ or_false (mem h pending) (text_eq h k) other
    | inl same ↦ known (mem h pending) (text_eq h k) (mem_same h k pending same ∙ there)
  ])
]
  where
    or_nothing : (a b : Bool) → a || (b || false) ≡ a || b
    or_nothing a b = ground arith

    known : (a b : Bool) → a ≡ true → a ≡ a || b
    known a b e = ground (arith, e)

inserted_hash-times :
    (h k : Text) (pending : List Text) → times h pending ≤ 1 → times h (inserted_hash k pending) ≤ 1
inserted_hash-times h k pending one = elim (Bool-cases (mem k pending)) [
  | inl there ↦ rw there one
  | inr absent ↦ rw absent (elim (Bool-cases (text_eq h k)) [
    | inl same ↦ ground (
      arith,
      times-append h pending (k ∷ []),
      times_absent h pending (mem_same h k pending same ∙ absent),
    )
    | inr other ↦ ground (arith, times-append h pending (k ∷ []), other, one)
  ])
]

hit-mem :
    (b : Bumps) (x : Hit) (h : Text)
    → mem h (hit b x.hash x.last_accessed_at x.now).pending
      ≡ mem h b.pending || is_stale_hit b.debounce h x
unfolding hit
hit-mem b x h = elim (Bool-cases (leb x.now (x.last_accessed_at + b.debounce))) [
  | inl fresh ↦
      rw fresh
        (or_false (mem h b.pending) (text_eq h x.hash && false) (and_false (text_eq h x.hash)))
  | inr stale ↦ rw stale (
      inserted_hash-mem h x.hash b.pending
      ∙ ap (λ t. mem h b.pending || t) (and_true (text_eq h x.hash)))
]
  where
    and_false : (a : Bool) → a && false ≡ false
    and_false a = ground arith

    and_true : (a : Bool) → a ≡ a && true
    and_true a = ground arith

hit-times :
    (b : Bumps) (x : Hit) (h : Text)
    → times h b.pending ≤ 1
    → times h (hit b x.hash x.last_accessed_at x.now).pending ≤ 1
unfolding hit
hit-times b x h one = elim (Bool-cases (leb x.now (x.last_accessed_at + b.debounce))) [
  | inl fresh ↦ rw fresh one
  | inr stale ↦ rw stale (inserted_hash-times h x.hash b.pending one)
]

hit-debounce : (b : Bumps) (x : Hit) → (hit b x.hash x.last_accessed_at x.now).debounce ≡ b.debounce
unfolding hit
hit-debounce b x = elim (Bool-cases (leb x.now (x.last_accessed_at + b.debounce))) [
  | inl fresh ↦ rw fresh refl
  | inr stale ↦ rw stale refl
]

-- After hits on any paths in any order, a flush is to bump exactly the paths that were waiting before
-- or that a hit found stale, and no path is to be bumped twice if none was before.
pub hit_all_lem :
    (b : Bumps) (hits : List Hit) (h : Text)
    → (mem h (hit_all b hits).pending ≡ mem h b.pending || any (is_stale_hit b.debounce h) hits)
      × (times h b.pending ≤ 1 → times h (hit_all b hits).pending ≤ 1)
hit_all_lem b [] h = (or_false (mem h b.pending) false refl, λ one. one)
hit_all_lem b (x ∷ hits) h =
    let next = hit b x.hash x.last_accessed_at x.now in
    let (waits, once) = hit_all_lem next hits h in
    (
      waits
          ∙ ap (λ m. m || any (is_stale_hit next.debounce h) hits) (hit-mem b x h)
          ∙ ap
              (λ d. (mem h b.pending || is_stale_hit b.debounce h x) || any (is_stale_hit d h) hits)
              (hit-debounce b x)
          ∙ or_assoc (mem h b.pending) (is_stale_hit b.debounce h x)
              (any (is_stale_hit b.debounce h) hits),
      λ one. once (hit-times b x h one),
    )
  where
    or_assoc : (a b c : Bool) → (a || b) || c ≡ a || (b || c)
    or_assoc a b c = ground arith
