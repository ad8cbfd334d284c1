-- ===== src/Db/Prune/Mark.antt =====
-- crates/garret-server/src/db.rs: the mark of `prunable`, against what an operator means by kept.
use garret.Common.{
  length-map, mem, ℕ, zero, suc, ◌+◌, ◌≤◌, ◌≡◌, ◌↔◌, refl, sym, ◌∙◌, Bool, true, ◌&&◌, ◌||◌, some,
  List, [], ◌∷◌, ◌++◌, map, arith, Text, text_eq, text_eq→≡, text_eq_refl, text_eq_sym, filter, any,
  length, length-append, leb, inl, inr, Bool-cases,
}
use garret.Db.Schema.{Row, Ref, Database, find, reference_hash}
use garret.Db.Evict.{is_live}
use garret.Db.Rows.{Unique}
use garret.Db.Prune.{joined, union, mark, keep, roots}
use garret.Db.Prune.Marking.{
  links, Kept, any-append, mem-map-filter, unseen, union-mem, union-queue, union-measure,
  joined-mem, IsMarking, step-IsMarking, pushed, pinned, referred,
}

module _ (refs : List Ref) where
  mark_mono :
      (fuel : ℕ) (k : List Text × List Text) (h : Text)
      → mem h k.1 ≡ true
      → mem h (mark fuel refs k) ≡ true
  unfolding mark
  mark_mono zero k h m = m
  mark_mono (suc fuel) ([], table) h m = m
  mark_mono (suc fuel) (x ∷ queue, table) h m =
      mark_mono fuel (union (joined refs x) (queue, table)) h
        (ground (arith, m, union-mem h (joined refs x) (queue, table)))

  -- With the fuel for what is queued or not seen yet, the table is closed under references.
  mark-closed :
      (fuel : ℕ) (all : List Text) (k : List Text × List Text)
      → ((g h : Text) → links refs g h ≡ true → mem h all ≡ true)
      → length k.0 + unseen all k.1 ≤ fuel
      → IsMarking refs k
      → (g h : Text) → mem g (mark fuel refs k) ≡ true
      → links refs g h ≡ true
      → mem h (mark fuel refs k) ≡ true
  unfolding mark
  mark-closed zero all ([], table) s f w g h m l = ground (arith, w.expanded g h m l)
  mark-closed zero all (x ∷ queue, table) s f w g h m l = absurd (omega (arith, f))
  mark-closed (suc fuel) all ([], table) s f w g h m l = ground (arith, w.expanded g h m l)
  mark-closed (suc fuel) all (x ∷ queue, table) s f w g h m l =
      mark-closed fuel all (union (joined refs x) (queue, table)) s
        (omega (
          arith,
          f,
          union-measure all (joined refs x) (queue, table)
              (λ t n. s x t (sym (joined-mem refs x t) ∙ n)),
        ))
        (step-IsMarking refs x queue table w) g h m l

  mark-sound :
      (P : Text → Type 0)
      → ((g h : Text) → P g → links refs g h ≡ true → P h)
      → (fuel : ℕ) (k : List Text × List Text) → ((h : Text) → mem h k.0 ≡ true → mem h k.1 ≡ true)
      → ((h : Text) → mem h k.1 ≡ true → P h)
      → (h : Text) → mem h (mark fuel refs k) ≡ true
      → P h
  unfolding mark
  mark-sound P c zero k q p h m = p h m
  mark-sound P c (suc fuel) ([], table) q p h m = p h m
  mark-sound P c (suc fuel) (x ∷ queue, table) q p h m =
      mark-sound P c fuel (union (joined refs x) (queue, table))
        (λ g n. ground (
          arith,
          n,
          union-queue g (joined refs x) (queue, table),
          union-mem g (joined refs x) (queue, table),
          q g,
        ))
        (λ g n. elim (Bool-cases (mem g (joined refs x))) [
          | inl t ↦
              c x g (p x (q x (ground (arith, text_eq_refl x)))) (sym (joined-mem refs x g) ∙ t)
          | inr f ↦ p g (ground (arith, f, n, union-mem g (joined refs x) (queue, table)))
        ])
        h m

links-mem :
    (refs : List Ref) (g h : Text) → links refs g h ≡ true → mem h (map reference_hash refs) ≡ true
links-mem [] g h l = cc
links-mem (r ∷ refs) g h l = ground (arith, l, links-mem refs g h)

unseen_all : (all table : List Text) → unseen all table ≤ length all
unseen_all [] table = omega arith
unseen_all (u ∷ all) table = ground (arith, unseen_all all table)

-- A row pushed since the cutoff.
abbrev Fresh : List Row → ℕ → Text → Type 0
Fresh rows before h = (r : Row) × (find h rows ≡ some r) × (before ≤ r.pushed_at)

abbrev fresh : List Row → ℕ → Text → Bool
fresh rows before h = any (λ o. leb before o.pushed_at && text_eq h o.store_path_hash) rows

fresh-find :
    (rows : List Row) (before : ℕ) (h : Text)
    → Unique rows
    → fresh rows before h ≡ true
    → Fresh rows before h
unfolding find
fresh-find [] before h u m = cc
fresh-find (x ∷ rows) before h u m = elim (Bool-cases (text_eq x.store_path_hash h)) [
  | inr f ↦
      let (r, found, b) =
        fresh-find rows before h u.1 (ground (arith, m, f, text_eq_sym h x.store_path_hash)) in
      (r, rw f found, b)
  | inl t ↦ elim (Bool-cases (fresh rows before h)) [
    | inl later ↦
        let (r, found, b) = fresh-find rows before h u.1 later in
        cc (u.0, found, text_eq→≡ x.store_path_hash h t)
    | inr never ↦ (x, rw t refl, ground (arith, m, never))
  ]
]

find-fresh :
    (rows : List Row) (before : ℕ) (h : Text) {r : Row}
    → find h rows ≡ some r
    → before ≤ r.pushed_at
    → fresh rows before h ≡ true
unfolding find
find-fresh [] before h f b = cc
find-fresh (x ∷ rows) before h {r} f b =
    ground (arith, find-fresh rows before h {r = r}, text_eq_sym h x.store_path_hash)

roots-mem :
    (db : Database) (before now : ℕ) (h : Text)
    → mem h (roots db before now)
      ≡ fresh db.objects before h || any (λ p. is_live now p && text_eq h p.store_path_hash) db.pins
roots-mem db before now h =
    any-append (text_eq h)
      (map (λ o. o.store_path_hash) (filter (λ o. leb before o.pushed_at) db.objects))
      (map (λ p. p.store_path_hash) (filter (is_live now) db.pins))
    ∙ rw
        (
          mem-map-filter (λ o. o.store_path_hash) (λ (o : Row). leb before o.pushed_at) h
              db.objects,
          mem-map-filter (λ p. p.store_path_hash) (is_live now) h db.pins,
        )
        refl

module _ (db : Database) (before now : ℕ) where
  first : List Text × List Text
  first = union (roots db before now) ([], [])

  first-mem : (h : Text) → mem h first.1 ≡ mem h (roots db before now)
  unfolding first
  first-mem h = union-mem h (roots db before now) ([], []) ∙ ground arith

  first-queue : (h : Text) → mem h first.0 ≡ mem h (roots db before now)
  unfolding first
  first-queue h = union-queue h (roots db before now) ([], []) ∙ ground arith

  first-Kept : Unique db.objects → (h : Text) → mem h first.1 ≡ true → Kept db before now h
  first-Kept u h m = elim (Bool-cases (fresh db.objects before h)) [
    | inl t ↦ let (r, found, b) = fresh-find db.objects before h u t in pushed found b
    | inr f ↦ pinned (ground (arith, f, m, first-mem h, roots-mem db before now h))
  ]

  first-IsMarking : IsMarking db.object_refs first
  first-IsMarking = record {
    queued = λ h m. first-mem h ∙ sym (first-queue h) ∙ m;
    expanded = λ g h m l. inl (first-queue g ∙ sym (first-mem g) ∙ m);
  }

  every : List Text
  every = roots db before now ++ map reference_hash db.object_refs

  enough :
      length first.0 + unseen every first.1 ≤ length (roots db before now) + length db.object_refs
  unfolding first every
  enough = omega (
    arith,
    union-measure every (roots db before now) ([], [])
        (λ h m.
          any-append (text_eq h) (roots db before now) (map reference_hash db.object_refs)
          ∙ ground (arith, m)),
    unseen_all every [],
    length-append (roots db before now) (map reference_hash db.object_refs),
    length-map reference_hash db.object_refs,
  )

  rooted : (h : Text) → mem h (roots db before now) ≡ true → mem h (keep db before now) ≡ true
  unfolding keep first
  rooted h m = mark_mono db.object_refs _ first h (first-mem h ∙ m)

  Kept-keep : (h : Text) → Kept db before now h → mem h (keep db before now) ≡ true
  unfolding keep first every
  Kept-keep h (pushed {r = r} f b) =
      rooted h
        (roots-mem db before now h ∙ ground (arith, find-fresh db.objects before h {r = r} f b))
  Kept-keep h (pinned l) = rooted h (roots-mem db before now h ∙ ground (arith, l))
  Kept-keep h (referred {g} k l) =
      mark-closed db.object_refs _ every first
        (λ g h l.
          any-append (text_eq h) (roots db before now) (map reference_hash db.object_refs)
          ∙ ground (arith, l, links-mem db.object_refs g h))
        enough first-IsMarking g h (Kept-keep g k) l

  -- The recursive query of prune finds exactly what is kept: the objects pushed since the cutoff
  -- and the live pins', and everything that these refer to, directly or not.
  pub keep_iff :
      Unique db.objects → (h : Text) → (mem h (keep db before now) ≡ true) ↔ Kept db before now h
  unfolding keep first
  keep_iff u h = (
    mark-sound db.object_refs (Kept db before now) (λ g h k l. referred k l) _ first
        (λ h m. first-mem h ∙ sym (first-queue h) ∙ m) (first-Kept u) h,
    Kept-keep h,
  )
