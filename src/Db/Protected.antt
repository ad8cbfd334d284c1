-- ===== src/Db/Protected.antt =====
-- What `evict_object` and `evictable` of crates/garret-server/src/db.rs take, and what they leave.
use garret.Common.{
  ℕ, ◌+◌, ◌≤◌, ◌<◌, ◌≡◌, ◌↔◌, refl, sym, ap, subst, ◌∙◌, Bool, true, false, not, ◌&&◌, none, some,
  List, [], ◌∷◌, arith, Text, text_eq, text_eq_refl, text_eq→≡, text_ne, any, All, inl, inr,
  Option-cases, Bool-cases, ltb, lt→ltb, ltb→lt,
}
use garret.Db.Schema.{Row, Ref, PinRow, Database, find, without, refs_without, reference_hash}
use garret.Db.Objects.{remove_row, debit}
use garret.Db.Evict.{push_grace, holds, is_live, pinned_by, evictable_where, evict_object}
use garret.Db.Rows.{size_of, find-without_ne, find-hash}

-- Only the object itself may refer to it.
abbrev pub Unreferenced : Database → Text → Type 0
Unreferenced db h = All (λ (r : Ref). reference_hash r ≡ h → r.referrer ≡ h) db.object_refs

-- Every pin on it has run out.
abbrev pub Unpinned : Database → ℕ → Text → Type 0
Unpinned db now h =
    All (λ (p : PinRow). p.store_path_hash ≡ h → (at : ℕ) × (p.expires_at ≡ some at) × (at ≤ now))
      db.pins

-- What the documentation of `evictable_where!` asks.
pub record IsEvictable (db : Database) (now : ℕ) (r : Row) : Type 0 where
  pub unreferenced : Unreferenced db r.store_path_hash
  pub unpinned : Unpinned db now r.store_path_hash
  pub settled : r.pushed_at + push_grace < now

unreferenced-holds :
    (h : Text) (refs : List Ref)
    → (any (holds h) refs ≡ false) ↔ All (λ (r : Ref). reference_hash r ≡ h → r.referrer ≡ h) refs
unreferenced-holds h [] = (λ e. tt, λ a. refl)
unreferenced-holds h (r ∷ refs) =
    let rest = unreferenced-holds h refs in
    (
      λ e. (λ q. ground (arith, text_eq→≡ r.referrer h, text_eq_refl h), rest.0 (ground arith)),
      λ a. ground (
        arith,
        rest.1 a.1,
        a.0,
        text_eq→≡ (reference_hash r) h,
        text_eq_refl h,
        text_ne r.referrer h,
      ),
    )

not_live :
    (now : ℕ) (p : PinRow)
    → is_live now p ≡ false
    → (at : ℕ) × (p.expires_at ≡ some at) × (at ≤ now)
not_live now p e = elim (Option-cases p.expires_at) [
  | inl n ↦ ground (arith, n)
  | inr (at, s) ↦ (at, s, ground (arith, s))
]

unpinned-pinned_by :
    (now : ℕ) (h : Text) (pins : List PinRow)
    → (any (pinned_by now h) pins ≡ false)
      ↔ All
          (λ (p : PinRow). p.store_path_hash ≡ h → (at : ℕ) × (p.expires_at ≡ some at) × (at ≤ now))
          pins
unpinned-pinned_by now h [] = (λ e. tt, λ a. refl)
unpinned-pinned_by now h (p ∷ pins) =
    let rest = unpinned-pinned_by now h pins in
    (
      λ e. (λ q. not_live now p (ground (arith, text_eq_refl h)), rest.0 (ground arith)),
      λ a. elim (Bool-cases (text_eq p.store_path_hash h)) [
        | inr f ↦ ground (arith, rest.1 a.1, f)
        | inl t ↦
            let (at, s, le) = a.0 (text_eq→≡ p.store_path_hash h t) in ground (arith, rest.1 a.1, s)
      ],
    )

splits : (a b c : Bool) → (not a && not b && c) ≡ true → (a ≡ false) × (b ≡ false) × (c ≡ true)
splits a b c e = ground arith

pub evictable_where_iff :
    (db : Database) (now : ℕ) (r : Row) → (evictable_where db now r ≡ true) ↔ IsEvictable db now r
unfolding evictable_where
evictable_where_iff db now r =
    let h = r.store_path_hash in
    let refs = unreferenced-holds h db.object_refs in
    let pins = unpinned-pinned_by now h db.pins in
    (
      λ e.
          let parts =
            splits (any (holds h) db.object_refs) (any (pinned_by now h) db.pins)
              (ltb (r.pushed_at + push_grace) now) e in
          record {
            unreferenced = refs.0 parts.0;
            unpinned = pins.0 parts.1;
            settled = ltb→lt (r.pushed_at + push_grace) now parts.2;
          },
      λ v.
          rw (refs.1 v.unreferenced, pins.1 v.unpinned)
            (lt→ltb (r.pushed_at + push_grace) now v.settled),
    )

pub evict_object_taken :
    (db : Database) (h : Text) (now : ℕ) {r : Row}
    → find h db.objects ≡ some r
    → evictable_where db now r ≡ true
    → evict_object db h now ≡ (some r.file_size, remove_row db h r.file_size)
unfolding evict_object
evict_object_taken db h now f t = rw (f, evict_object, t)

pub evict_object_kept :
    (db : Database) (h : Text) (now : ℕ) {r : Row}
    → find h db.objects ≡ some r
    → evictable_where db now r ≡ false
    → evict_object db h now ≡ (none, db)
unfolding evict_object
evict_object_kept db h now f t = rw (f, evict_object, t)

pub evict_object_absent :
    (db : Database) (h : Text) (now : ℕ)
    → find h db.objects ≡ none
    → evict_object db h now ≡ (none, db)
unfolding evict_object
evict_object_absent db h now f = rw (f, evict_object)

-- `evict_object` answers a size exactly for a row of that size that nothing else in the cache refers
-- to, that no live pin holds, and that was not pushed or negotiated within the grace.
pub evict_object_iff :
    (db : Database) (h : Text) (now size : ℕ)
    → ((evict_object db h now).0 ≡ some size)
      ↔ ((r : Row) × (find h db.objects ≡ some r) × (r.file_size ≡ size) × IsEvictable db now r)
evict_object_iff db h now size = elim (Option-cases (find h db.objects)) [
  | inl n ↦ (λ e. cc (evict_object_absent db h now n, e), λ v. cc (n, v.1))
  | inr (r, f) ↦ elim (Bool-cases (evictable_where db now r)) [
    | inl t ↦
        let taken = ap (λ p. p.0) (evict_object_taken db h now f t) in
        (
          λ e. (r, f, cc (taken, e), (evictable_where_iff db now r).0 t),
          λ v. taken ∙ ap some ((ap size_of (sym f ∙ v.1)) ∙ v.2),
        )
    | inr b ↦ (
      λ e. cc (ap (λ p. p.0) (evict_object_kept db h now f b), e),
      λ v. cc (b, (evictable_where_iff db now v.0).1 v.3, f, v.1),
    )
  ]
]

closed_without :
    (h : Text) (rows : List Row) (refs : List Ref)
    → All (λ (r : Ref). reference_hash r ≡ h → r.referrer ≡ h) refs
    → All
        (λ (r : Ref). find (reference_hash r) (without h rows) ≡ find (reference_hash r) rows)
        (refs_without h refs)
unfolding refs_without
closed_without h rows [] a = tt
closed_without h rows (r ∷ refs) a = ground (
  arith,
  closed_without h rows refs a.1,
  a.0,
  text_eq_refl h,
  text_eq→≡ h (reference_hash r),
  find-without_ne h (reference_hash r) rows,
)

unchanged :
    (rows : List Row) (refs : List Ref)
    → All (λ (r : Ref). find (reference_hash r) rows ≡ find (reference_hash r) rows) refs
unchanged rows [] = tt
unchanged rows (r ∷ refs) = (refl, unchanged rows refs)

-- Eviction takes no object that another one in the cache refers to: whatever a surviving object
-- refers to is in the cache afterwards exactly as it was before.
pub evict_object_closed :
    (db : Database) (h : Text) (now : ℕ)
    → let db' = (evict_object db h now).1 in
      All
        (λ (r : Ref). find (reference_hash r) db'.objects ≡ find (reference_hash r) db.objects)
        db'.object_refs
unfolding remove_row debit
evict_object_closed db h now = elim (Option-cases (find h db.objects)) [
  | inl n ↦ rw (evict_object_absent db h now n) (unchanged db.objects db.object_refs)
  | inr (r, f) ↦ elim (Bool-cases (evictable_where db now r)) [
    | inl t ↦ rw (evict_object_taken db h now f t) (
        closed_without h db.objects db.object_refs (
          subst (Unreferenced db) (find-hash h db.objects f)
            ((evictable_where_iff db now r).0 t).unreferenced))
    | inr b ↦ rw (evict_object_kept db h now f b) (unchanged db.objects db.object_refs)
  ]
]
