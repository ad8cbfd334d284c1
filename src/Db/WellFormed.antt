-- ===== src/Db/WellFormed.antt =====
-- crates/garret-server/src/db.rs: the invariant of the tables, kept by the statements but for the insert.
use garret.Common.{
  ℕ, ◌+◌, ◌≡◌, refl, sym, ap, subst, ◌∙◌, true, Option, some, List, [], ◌∷◌, map, arith, Text,
  text_eq_sym, is_some, All, All-filter, All-imp, inl, inr, Option-cases, Bool-cases,
}
use garret.Common.Int.{pos, debit_counter}
use garret.Common.Result.{ok, ok-injective}
use garret.Db.Schema.{
  Row, Ref, PinRow, Database, find, without, refs_without, pins_without, sum_sizes, empty,
}
use garret.Db.Objects.{
  file_size, reconcile_total_bytes, remove_row, delete_object, update_sigs, debit, exists,
}
use garret.Db.Evict.{evict_object, pin, unpin, replace_pin, evictable_where}
use garret.Db.Negotiate.{missing, classify, touch, touch_all, bump, bump_all, bump_last_accessed}
use garret.Db.Rows.{
  Unique, size_of, find-without_ne, without-Unique, sum_sizes-without, find-map, map-Unique,
  sum_sizes-map,
}

abbrev pub Owned : List Row → Text → Type 0
Owned rows h = is_some (find h rows) ≡ true

-- One row to a key; every reference and pin belongs to a row; the usage counter is the sum of the
-- sizes.
pub record IsWellFormed (db : Database) : Type 0 where
  pub unique : Unique db.objects
  pub refs_owned : All (λ (r : Ref). Owned db.objects r.referrer) db.object_refs
  pub pins_owned : All (λ (p : PinRow). Owned db.objects p.store_path_hash) db.pins
  pub counted : db.total_bytes ≡ pos (sum_sizes db.objects)

pub empty-IsWellFormed : IsWellFormed empty
empty-IsWellFormed = record { unique = tt; refs_owned = tt; pins_owned = tt; counted = refl }

refs-Owned-without :
    (h : Text) (rows : List Row) (refs : List Ref)
    → All (λ (r : Ref). Owned rows r.referrer) refs
    → All (λ (r : Ref). Owned (without h rows) r.referrer) (refs_without h refs)
unfolding refs_without
refs-Owned-without h rows [] o = tt
refs-Owned-without h rows (r ∷ refs) o = ground (
  arith,
  refs-Owned-without h rows refs o.1,
  find-without_ne h r.referrer rows,
  text_eq_sym h r.referrer,
)

pins-Owned-without :
    (h : Text) (rows : List Row) (pins : List PinRow)
    → All (λ (p : PinRow). Owned rows p.store_path_hash) pins
    → All (λ (p : PinRow). Owned (without h rows) p.store_path_hash) (pins_without h pins)
unfolding pins_without
pins-Owned-without h rows [] o = tt
pins-Owned-without h rows (p ∷ pins) o = ground (
  arith,
  pins-Owned-without h rows pins o.1,
  find-without_ne h p.store_path_hash rows,
  text_eq_sym h p.store_path_hash,
)

pub remove_row-IsWellFormed :
    (db : Database) (h : Text) {r : Row}
    → IsWellFormed db
    → find h db.objects ≡ some r
    → IsWellFormed (remove_row db h r.file_size)
unfolding remove_row debit
remove_row-IsWellFormed db h {r} w e = record {
  unique = without-Unique h db.objects w.unique;
  refs_owned = refs-Owned-without h db.objects db.object_refs w.refs_owned;
  pins_owned = pins-Owned-without h db.objects db.pins w.pins_owned;
  counted =
      let rest : sum_sizes (without h db.objects) + r.file_size ≡ sum_sizes db.objects =
        ap (λ o. sum_sizes (without h db.objects) + size_of o) (sym e)
        ∙ sum_sizes-without h db.objects w.unique in
      rw w.counted
        (debit_counter (sum_sizes db.objects) r.file_size (omega arith) ∙ ap pos (omega arith));
}

-- A delete keeps the tables well formed, whether or not the row was there.
pub delete_object-IsWellFormed :
    (db : Database) (h : Text) → IsWellFormed db → IsWellFormed (delete_object db h).1
unfolding delete_object file_size
delete_object-IsWellFormed db h w = elim (Option-cases (find h db.objects)) [
  | inl e ↦ rw (e, delete_object, file_size) w
  | inr (r, e) ↦ rw (e, delete_object, file_size) (remove_row-IsWellFormed db h w e)
]

-- An eviction keeps the tables well formed, whether or not it takes the row.
pub evict_object-IsWellFormed :
    (db : Database) (h : Text) (now : ℕ) → IsWellFormed db → IsWellFormed (evict_object db h now).1
unfolding evict_object
evict_object-IsWellFormed db h now w = elim (Option-cases (find h db.objects)) [
  | inl e ↦ rw (e, evict_object) w
  | inr (r, e) ↦ elim (Bool-cases (evictable_where db now r)) [
    | inl t ↦ rw (e, evict_object, t) (remove_row-IsWellFormed db h w e)
    | inr f ↦ rw (e, evict_object, f) w
  ]
]

-- An update of columns other than the key and the size.
mapped-IsWellFormed :
    (db : Database) (f : Row → Row)
    → ((r : Row) → (f r).store_path_hash ≡ r.store_path_hash)
    → ((r : Row) → (f r).file_size ≡ r.file_size)
    → IsWellFormed db
    → IsWellFormed (record db { objects = map f db.objects })
mapped-IsWellFormed db f key size w = record {
  unique = map-Unique f db.objects key w.unique;
  refs_owned = All-imp (λ r o. kept r.referrer o) db.object_refs w.refs_owned;
  pins_owned = All-imp (λ p o. kept p.store_path_hash o) db.pins w.pins_owned;
  counted = rw (sum_sizes-map f db.objects size) w.counted;
}
  where
    kept : (h : Text) → Owned db.objects h → Owned (map f db.objects) h
    kept h o = ground (arith, find-map f h db.objects key)

pub update_sigs-IsWellFormed :
    (db : Database) (h : Text) (sigs : List Text)
    → IsWellFormed db
    → IsWellFormed (update_sigs db h sigs)
unfolding update_sigs
update_sigs-IsWellFormed db h sigs w =
    mapped-IsWellFormed db _ (λ r. ground arith) (λ r. ground arith) w

touch_all-IsWellFormed :
    (db : Database) (now : ℕ) (stale : List Text)
    → IsWellFormed db
    → IsWellFormed (record db { objects = touch_all now stale db.objects })
unfolding touch_all touch
touch_all-IsWellFormed db now [] w = w
touch_all-IsWellFormed db now (h ∷ stale) w =
    touch_all-IsWellFormed (record db { objects = touch now h db.objects }) now stale
      (mapped-IsWellFormed db _ (λ r. ground arith) (λ r. ground arith) w)

pub missing-IsWellFormed :
    (db : Database) (hashes : List Text) (now : ℕ)
    → IsWellFormed db
    → IsWellFormed (missing db hashes now).1
unfolding missing
missing-IsWellFormed db hashes now w = touch_all-IsWellFormed db now (classify db now hashes).1 w

bump_all-IsWellFormed :
    (db : Database) (now stale_after : ℕ) (hashes : List Text)
    → IsWellFormed db
    → IsWellFormed (record db { objects = bump_all now stale_after hashes db.objects })
unfolding bump_all bump
bump_all-IsWellFormed db now stale_after [] w = w
bump_all-IsWellFormed db now stale_after (h ∷ hashes) w =
    bump_all-IsWellFormed (record db { objects = bump now stale_after h db.objects }) now
      stale_after hashes (mapped-IsWellFormed db _ (λ r. ground arith) (λ r. ground arith) w)

pub bump_last_accessed-IsWellFormed :
    (db : Database) (hashes : List Text) (now stale_after : ℕ)
    → IsWellFormed db
    → IsWellFormed (bump_last_accessed db hashes now stale_after)
unfolding bump_last_accessed
bump_last_accessed-IsWellFormed db hashes now stale_after w =
    bump_all-IsWellFormed db now stale_after hashes w

pub pin-IsWellFormed :
    (db : Database) (name hash : Text) (expires_at : Option ℕ) (now : ℕ) {db' : Database}
    → IsWellFormed db
    → pin db name hash expires_at now ≡ ok db'
    → IsWellFormed db'
unfolding pin exists replace_pin
pin-IsWellFormed db name hash expires_at now w e =
    elim (Bool-cases (is_some (find hash db.objects))) [
      | inr f ↦ cc (f, e)
      | inl t ↦ subst IsWellFormed (ok-injective (rw t at e)) record {
        unique = w.unique;
        refs_owned = w.refs_owned;
        pins_owned = (
          t,
          All-filter (λ (p : PinRow). Owned db.objects p.store_path_hash) _ db.pins w.pins_owned,
        );
        counted = w.counted;
      }
    ]

pub unpin-IsWellFormed :
    (db : Database) (name : Text) → IsWellFormed db → IsWellFormed (unpin db name).1
unfolding unpin
unpin-IsWellFormed db name w = record {
  unique = w.unique;
  refs_owned = w.refs_owned;
  pins_owned = All-filter _ _ db.pins w.pins_owned;
  counted = w.counted;
}

pub reconcile-IsWellFormed : (db : Database) → IsWellFormed db → (reconcile_total_bytes db).1 ≡ db
unfolding reconcile_total_bytes
reconcile-IsWellFormed db w = ap (λ t. record db { total_bytes = t }) (sym w.counted)
