-- ===== src/Db/Evict.antt =====
-- crates/garret-server/src/db.rs: what GC may evict, and pins. A comparison `a < now - b` of `i64`
-- is written `a + b < now`.
use garret.Common.{
  ℕ, ◌+◌, Bool, true, not, ◌&&◌, ◌||◌, Option, none, some, List, ◌∷◌, map, if◌then◌else◌, Text,
  text_eq, text_lt, filter, any, take, ltb, ◌==◌,
}
use garret.Common.Result.{Result, ok, err}
use garret.Db.Schema.{Row, Ref, PinRow, Database, find, reference_hash, sort_by}
use garret.Db.Objects.{exists, remove_row}

-- crates/garret-common/src/lib.rs: `PUSH_GRACE`.
abbrev pub push_grace : ℕ
push_grace = 86400

-- Another object refers to `hash`; a reference of the object to itself does not count.
abbrev pub holds : Text → Ref → Bool
holds hash r = text_eq (reference_hash r) hash && not (text_eq r.referrer hash)

abbrev pub is_live : ℕ → PinRow → Bool
is_live now p = elim p.expires_at [ none ↦ true | some at ↦ ltb now at ]

abbrev pub pinned_by : ℕ → Text → PinRow → Bool
pinned_by now hash p = text_eq p.store_path_hash hash && is_live now p

-- The macro `evictable_where!`.
unfoldable pub evictable_where : Database → ℕ → Row → Bool
evictable_where db now o =
    not (any (holds o.store_path_hash) db.object_refs)
    && not (any (pinned_by now o.store_path_hash) db.pins)
    && ltb (o.pushed_at + push_grace) now

-- `ORDER BY last_accessed_at ASC, store_path_hash ASC`.
unfoldable pub colder : Row → Row → Bool
colder a b =
    ltb a.last_accessed_at b.last_accessed_at
    || (a.last_accessed_at == b.last_accessed_at && text_lt a.store_path_hash b.store_path_hash)

abbrev pub candidate : Row → Text × ℕ
candidate o = (o.store_path_hash, o.file_size)

unfoldable pub evictable : Database → ℕ → ℕ → List (Text × ℕ)
unfolding evictable_where colder sort_by
evictable db limit now =
    take limit (map candidate (sort_by colder (filter (evictable_where db now) db.objects)))

abbrev still_evictable : Database → ℕ → Option Row → Option ℕ
still_evictable db now none = none
still_evictable db now (some o) = if evictable_where db now o then some o.file_size else none

unfoldable pub evict_object : Database → Text → ℕ → Option ℕ × Database
unfolding evictable_where remove_row
evict_object db hash now = elim (still_evictable db now (find hash db.objects)) [
  | none ↦ (none, db)
  | some size ↦ (some size, remove_row db hash size)
]

pub data PinError : Type 0 where
  not_in_cache : PinError

-- `INSERT OR REPLACE INTO pins`: `name` is the primary key.
unfoldable pub replace_pin : PinRow → List PinRow → List PinRow
replace_pin p pins = p ∷ filter (λ q. not (text_eq q.name p.name)) pins

unfoldable pub pin : Database → Text → Text → Option ℕ → ℕ → Result Database PinError
unfolding exists replace_pin
pin db name hash expires_at now =
    if exists db hash
    then ok (record db {
      pins =
          replace_pin
            (record {
              name = name;
              store_path_hash = hash;
              expires_at = expires_at;
              created_at = now;
            })
            db.pins;
    })
    else err not_in_cache

unfoldable pub unpin : Database → Text → Bool × Database
unpin db name = (
  any (λ p. text_eq p.name name) db.pins,
  record db { pins = filter (λ p. not (text_eq p.name name)) db.pins },
)
