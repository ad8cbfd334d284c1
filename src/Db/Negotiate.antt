-- ===== src/Db/Negotiate.antt =====
-- crates/garret-server/src/db.rs: Negotiation, the Puller's bumps, and three listings.
use garret.Common.{
  ℕ, ◌+◌, Bool, true, false, ◌&&◌, ◌||◌, Option, none, some, List, [], ◌∷◌, map, if◌then◌else◌,
  Text, text_eq, text_lt, filter, ltb, leb, ◌==◌,
}
use garret.Db.Schema.{Row, Database, ObjectBrief, brief, find, sort_by}

-- `PUSHED_AT_DEBOUNCE`.
abbrev pub pushed_at_debounce : ℕ
pushed_at_debounce = 3600

-- One hash of the batch: missing, due for a refresh, or neither.
abbrev sorted_into : ℕ → Text → Option Row → List Text × List Text → List Text × List Text
sorted_into now hash none acc = (hash ∷ acc.0, acc.1)
sorted_into now hash (some r) acc =
    if ltb (r.pushed_at + pushed_at_debounce) now then (acc.0, hash ∷ acc.1) else acc

unfoldable pub classify : Database → ℕ → List Text → List Text × List Text
classify db now [] = ([], [])
classify db now (hash ∷ hashes) =
    sorted_into now hash (find hash db.objects) (classify db now hashes)

unfoldable pub touch : ℕ → Text → List Row → List Row
touch now hash =
    map (λ r. if text_eq r.store_path_hash hash then record r { pushed_at = now } else r)

unfoldable pub touch_all : ℕ → List Text → List Row → List Row
unfolding touch
touch_all now [] rows = rows
touch_all now (hash ∷ stale) rows = touch_all now stale (touch now hash rows)

unfoldable pub missing : Database → List Text → ℕ → List Text × Database
unfolding classify touch_all
missing db hashes now =
    let (absent, stale) = classify db now hashes in
    (absent, record db { objects = touch_all now stale db.objects })

-- `UPDATE objects SET last_accessed_at = ?2 WHERE … AND last_accessed_at < ?2 - ?3`.
unfoldable pub bump : ℕ → ℕ → Text → List Row → List Row
bump now stale_after hash = map λ r.
    if text_eq r.store_path_hash hash && ltb (r.last_accessed_at + stale_after) now
    then record r { last_accessed_at = now }
    else r

unfoldable pub bump_all : ℕ → ℕ → List Text → List Row → List Row
unfolding bump
bump_all now stale_after [] rows = rows
bump_all now stale_after (hash ∷ hashes) rows =
    bump_all now stale_after hashes (bump now stale_after hash rows)

unfoldable pub bump_last_accessed : Database → List Text → ℕ → ℕ → Database
unfolding bump_all
bump_last_accessed db hashes now stale_after = record db {
  objects = bump_all now stale_after hashes db.objects;
}

abbrev pub eq_option : Text → Option Text → Bool
eq_option subject none = false
eq_option subject (some s) = text_eq s subject

abbrev since_or_min : Option ℕ → ℕ → Bool
since_or_min none created_at = true
since_or_min (some since) created_at = leb since created_at

-- `ORDER BY created_at, store_path_hash`.
unfoldable pub older : Row → Row → Bool
older a b =
    ltb a.created_at b.created_at
    || (a.created_at == b.created_at && text_lt a.store_path_hash b.store_path_hash)

unfoldable pub pushed_by : Database → Text → Option ℕ → List ObjectBrief
unfolding older sort_by
pushed_by db subject since = map brief (
    sort_by older
      (filter (λ r. eq_option subject r.pushed_by && since_or_min since r.created_at) db.objects))

-- `ORDER BY last_accessed_at DESC LIMIT 1`; of rows read at one time any may come first.
abbrev fresher : Row → Row → Bool
fresher a b = ltb b.last_accessed_at a.last_accessed_at

abbrev first_hash : List Row → Option Text
first_hash [] = none
first_hash (r ∷ rows) = some r.store_path_hash

unfoldable pub most_recently_accessed : Database → Option Text
unfolding sort_by
most_recently_accessed db = first_hash (sort_by fresher db.objects)
