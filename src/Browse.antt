-- ===== src/Browse.antt =====
-- crates/garret-server/src/browse.rs: the queries of the browse API, and their records in
-- crates/garret-common/src/wire.rs. A cursor is its two fields here; its text `created_at:hash` and
-- the error for a malformed one are left out. SQLite's `LIKE … ESCAPE '\'` is a parameter.
pub mod Order
pub mod Cuts
pub mod Paging
mod Tests
use garret.Common.{
  ℕ, zero, suc, ◌+◌, ◌-◌, ◌^◌, Bool, true, false, not, ◌&&◌, ◌||◌, Option, none, some, List, [],
  ◌∷◌, ◌++◌, map, if◌then◌else◌, Text, text_eq, text_lt, codes, filter, any, take, length, ltb,
  ◌==◌, min, max,
}
use garret.Db.Schema.{Object, Row, Ref, PinRow, Database, find, reference_hash, sort_by}
use garret.Db.Objects.{get_object, map_option}

-- `MAX_LIMIT`.
abbrev pub max_limit : ℕ
max_limit = 500

pub record Summary : Type 0 where
  pub hash : Text
  pub name : Text
  pub store_path : Text
  pub nar_size : ℕ
  pub file_size : ℕ
  pub created_at : ℕ

pub record Cursor : Type 0 where
  pub created_at : ℕ
  pub hash : Text

pub record Page : Type 0 where
  pub objects : List Summary
  pub next_cursor : Option Cursor

-- `SUMMARY_COLUMNS`, read back.
abbrev pub summary_from_row : Row → Summary
summary_from_row r = record {
  hash = r.store_path_hash;
  name = r.name;
  store_path = r.store_path;
  nar_size = r.nar_size;
  file_size = r.file_size;
  created_at = r.created_at;
}

abbrev pub is_special : ℕ → Bool
is_special c = c == b'\\' || c == b'%' || c == b'_'

unfoldable pub escape_like : Text → Text
escape_like [] = []
escape_like (c ∷ q) = if is_special c then b'\\' ∷ c ∷ escape_like q else c ∷ escape_like q

-- `format!("%{}%", escape_like(q))`.
unfoldable pub pattern_of : Text → Text
unfolding escape_like
pattern_of q = b'%' ∷ (escape_like q ++ b'%' ∷ [])

-- Where a listing starts: `(i64::MAX, "")` without a cursor.
abbrev pub after_of : Option Cursor → ℕ × Text
after_of none = (2 ^ 63 - 1, [])
after_of (some c) = (c.created_at, c.hash)

-- `created_at DESC, store_path_hash ASC` on the pairs that a cursor is made of.
unfoldable pub precedes : ℕ × Text → ℕ × Text → Bool
precedes a b = ltb b.0 a.0 || (b.0 == a.0 && text_lt a.1 b.1)

abbrev pub key : Row → ℕ × Text
key r = (r.created_at, r.store_path_hash)

abbrev pub newest : Row → Row → Bool
newest a b = precedes (key a) (key b)

abbrev pub last_cursor : Summary → List Summary → Cursor
last_cursor s [] = record { created_at = s.created_at; hash = s.hash }
last_cursor s (t ∷ rest) = last_cursor t rest

-- The extra row only says that there is another page.
abbrev pub page_of : ℕ → List Summary → Page
page_of limit [] = record { objects = []; next_cursor = none }
page_of limit (s ∷ rest) =
    if ltb limit (length (s ∷ rest))
    then record {
      objects = take limit (s ∷ rest);
      next_cursor = some (last_cursor s (take (limit - 1) rest));
    }
    else record { objects = s ∷ rest; next_cursor = none }

-- `limit.clamp(1, MAX_LIMIT)`.
abbrev pub clamped : ℕ → ℕ
clamped limit = min (max limit 1) max_limit

module _ (like : Text → Text → Bool) where
  abbrev pub matches : Option Text → Row → Bool
  matches none r = true
  matches (some q) r = like (pattern_of q) r.name

  -- The rows of `LIST`, less its limit.
  unfoldable pub listed : Database → Option Text → Option Cursor → List Row
  unfolding sort_by precedes
  listed db query cursor =
      sort_by newest
        (filter (λ r. matches query r && precedes (after_of cursor) (key r)) db.objects)

  unfoldable pub list : Database → Option Text → ℕ → Option Cursor → Page
  unfolding listed
  list db query limit cursor =
      let limit = clamped limit in
      page_of limit (take (limit + 1) (map summary_from_row (listed db query cursor)))

-- `referrers`.
abbrev refers : Text → Ref → Bool
refers hash r = text_eq (reference_hash r) hash && not (text_eq r.referrer hash)

abbrev joined : Database → List Ref → List Row
joined db [] = []
joined db (r ∷ refs) = elim (find r.referrer db.objects) [
  | none ↦ joined db refs
  | some o ↦ o ∷ joined db refs
]

abbrev by_name : Row → Row → Bool
by_name a b = text_lt a.name b.name

unfoldable pub referrers : Database → Text → List Summary
unfolding sort_by
referrers db hash =
    map summary_from_row (sort_by by_name (joined db (filter (refers hash) db.object_refs)))
