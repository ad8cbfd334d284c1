-- ===== src/Db/Refresh.antt =====
-- Negotiation (`missing` of crates/garret-server/src/db.rs) against eviction.
use garret.Common.{
  mem, ℕ, ◌+◌, ◌-◌, ◌≤◌, ◌<◌, ◌≡◌, refl, sym, ap, ◌∙◌, true, false, not, none, some, List, [], ◌∷◌,
  arith, if◌then◌else◌, Text, text_eq, text_eq_refl, text_eq→≡, filter, inl, inr, ◌⊎◌, Option-cases,
  Bool-cases,
}
use garret.Db.Schema.{Row, Database, find, has}
use garret.Db.Objects.{map_option}
use garret.Db.Evict.{push_grace, evictable_where, evict_object}
use garret.Db.Negotiate.{pushed_at_debounce, classify, touch, touch_all, missing}
use garret.Db.Rows.{find-map, find-hash}
use garret.Db.Protected.{evict_object_kept, evictable_where_iff}

-- Pushed or refreshed within the debounce.
abbrev IsRecent : ℕ → Row → Type 0
IsRecent now r = now ≤ r.pushed_at + pushed_at_debounce

abbrev refreshed : ℕ → Text → Row → Row
refreshed now h r = if text_eq r.store_path_hash h then record r { pushed_at = now } else r

refreshed-hash :
    (now : ℕ) (h : Text) (r : Row) → (refreshed now h r).store_path_hash ≡ r.store_path_hash
refreshed-hash now h r = ground arith

find-touch :
    (now : ℕ) (k h : Text) (rows : List Row)
    → find h (touch now k rows) ≡ map_option (refreshed now k) (find h rows)
unfolding touch
find-touch now k h rows = find-map (refreshed now k) h rows (refreshed-hash now k)

why_next :
    (now : ℕ) (h k : Text) (stale : List Text) (r : Row)
    → r.store_path_hash ≡ h
    → (mem h (k ∷ stale) ≡ true) ⊎ IsRecent now r
    → (mem h stale ≡ true) ⊎ IsRecent now (refreshed now k r)
why_next now h k stale r key why = elim (Bool-cases (text_eq r.store_path_hash k)) [
  | inl t ↦ inr (rw t (omega arith))
  | inr f ↦ elim why [
    | inr recent ↦ inr (rw f recent)
    | inl m ↦ inl (ground (arith, f, ap (λ t. text_eq t k) key))
  ]
]

-- A refresh never forgets a row, and leaves the ones that it names recent.
touch_all-IsRecent :
    (now : ℕ) (h : Text) (stale : List Text) (rows : List Row) {r : Row}
    → find h rows ≡ some r
    → (mem h stale ≡ true) ⊎ IsRecent now r
    → (s : Row) × (find h (touch_all now stale rows) ≡ some s) × IsRecent now s
unfolding touch_all
touch_all-IsRecent now h [] rows {r} f (inl m) = cc
touch_all-IsRecent now h [] rows {r} f (inr recent) = (r, f, recent)
touch_all-IsRecent now h (k ∷ stale) rows {r} f why =
    touch_all-IsRecent now h stale (touch now k rows) {r = refreshed now k r}
      (find-touch now k h rows ∙ ap (map_option (refreshed now k)) f)
      (why_next now h k stale r (find-hash h rows f) why)

-- Of a batch, what is in the cache and due is refreshed.
classify-stale :
    (db : Database) (now : ℕ) (h : Text) (hashes : List Text) {r : Row}
    → find h db.objects ≡ some r
    → mem h hashes ≡ true
    → (mem h (classify db now hashes).1 ≡ true) ⊎ IsRecent now r
unfolding classify
classify-stale db now h [] f m = cc
classify-stale db now h (k ∷ hashes) {r} f m =
    let ih = classify-stale db now h hashes {r = r} f in
    elim (Bool-cases (text_eq h k)) [
      | inl t ↦ rw (sym (text_eq→≡ h k t), f) (ground (arith, text_eq_refl h))
      | inr n ↦ elim (Option-cases (find k db.objects)) [
        | inl absent ↦ rw absent (ih (ground (arith, n)))
        | inr (s, found) ↦ rw found (ground (arith, n, ih))
      ]
    ]

classify-missing :
    (db : Database) (now : ℕ) (hashes : List Text)
    → (classify db now hashes).0 ≡ filter (λ h. not (has db h)) hashes
unfolding classify
classify-missing db now [] = refl
classify-missing db now (k ∷ hashes) = elim (Option-cases (find k db.objects)) [
  | inl n ↦ rw (n, classify-missing db now hashes)
  | inr (r, f) ↦ rw f (ground (arith, classify-missing db now hashes))
]

not_before : {a b : ℕ} → a < b → b ≤ a → ⊥
not_before h k = omega arith

not_settled :
    (db : Database) (now : ℕ) (r : Row)
    → now ≤ r.pushed_at + push_grace
    → evictable_where db now r ≡ false
not_settled db now r h = elim (Bool-cases (evictable_where db now r)) [
  | inr f ↦ f
  | inl t ↦ absurd (not_before ((evictable_where_iff db now r).0 t).settled h)
]

-- Negotiation reports exactly the hashes of the batch that the cache does not hold, in the order
-- asked.
pub missing_lem :
    (db : Database) (hashes : List Text) (now : ℕ)
    → (missing db hashes now).0 ≡ filter (λ h. not (has db h)) hashes
unfolding missing
missing_lem db hashes now = classify-missing db now hashes

-- What it does not report missing stays: a path of the batch that the cache holds is in the cache
-- afterwards, and no eviction takes it until the grace less the debounce, 23 hours, has passed.
pub missing-evict_object :
    (db : Database) (hashes : List Text) (now later : ℕ) (h : Text)
    → mem h hashes ≡ true
    → has db h ≡ true
    → later ≤ now + (push_grace - pushed_at_debounce)
    → let db' = (missing db hashes now).1 in
      (has db' h ≡ true) × (evict_object db' h later ≡ (none, db'))
unfolding missing
missing-evict_object db hashes now later h m present soon =
    elim (Option-cases (find h db.objects)) [
      | inl n ↦ absurd (ground (arith, n))
      | inr (r, f) ↦
          let stale = (classify db now hashes).1 in
          let (s, found, recent) =
            touch_all-IsRecent now h stale db.objects {r = r} f
              (classify-stale db now h hashes {r = r} f m) in
          let db' : Database = (missing db hashes now).1 in
          (
            rw found,
            evict_object_kept db' h later {r = s} found (not_settled db' later s (omega arith)),
          )
    ]
