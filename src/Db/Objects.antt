-- ===== src/Db/Objects.antt =====
-- crates/garret-server/src/db.rs: inserting, reading and deleting objects.
use garret.Common.{
  ℕ, Bool, ◌&&◌, Option, none, some, List, [], ◌∷◌, ◌++◌, if◌then◌else◌, Text, text_eq, text_lt,
  filter, any, is_some, map, length,
}
use garret.Common.Int.{ℤ, pos, ◌+ℤ◌, ◌-ℤ◌, max0}
use garret.Common.Result.{Result, ok, err, ◌>>=◌}
use garret.Db.Schema.{
  Object, Row, Ref, Database, ObjectBrief, brief, find, without, refs_without, pins_without,
  sum_sizes, sort_by,
}

-- SQLite refuses a second row with the primary key of `object_refs`.
pub data DbError : Type 0 where
  constraint : DbError

abbrev pub or_zero : Option ℕ → ℕ
or_zero none = 0
or_zero (some n) = n

abbrev pub map_option {ℓ κ} : {A : Type ℓ} {B : Type κ} → (A → B) → Option A → Option B
map_option f none = none
map_option f (some a) = some (f a)

unfoldable pub exists : Database → Text → Bool
exists db hash = is_some (find hash db.objects)

unfoldable pub created_at : Database → Text → Option ℕ
created_at db hash = map_option (λ r. r.created_at) (find hash db.objects)

unfoldable pub file_size : Database → Text → Option ℕ
file_size db hash = map_option (λ r. r.file_size) (find hash db.objects)

unfoldable pub total_bytes : Database → ℤ
total_bytes db = db.total_bytes

-- The reconciled usage, and the database with the counter set to it.
unfoldable pub reconcile_total_bytes : Database → ℤ × Database
reconcile_total_bytes db =
    let actual = pos (sum_sizes db.objects) in (actual, record db { total_bytes = actual })

abbrev pub row_of : Object → ℕ → Row
row_of obj now = record {
  store_path_hash = obj.store_path_hash;
  store_path = obj.store_path;
  name = obj.name;
  nar_hash = obj.nar_hash;
  nar_size = obj.nar_size;
  file_hash = obj.file_hash;
  file_size = obj.file_size;
  deriver = obj.deriver;
  ca = obj.ca;
  sigs = obj.sigs;
  pushed_by = obj.pushed_by;
  created_at = now;
  last_accessed_at = now;
  pushed_at = now;
}

-- `INSERT … ON CONFLICT (store_path_hash) DO UPDATE SET` every column.
unfoldable pub upsert : Row → List Row → List Row
upsert new [] = new ∷ []
upsert new (r ∷ rows) =
    if text_eq r.store_path_hash new.store_path_hash then new ∷ rows else r ∷ upsert new rows

abbrev pub same_ref : Text → Text → Ref → Bool
same_ref referrer reference r = text_eq r.referrer referrer && text_eq r.reference reference

unfoldable pub insert_refs : Text → List Text → List Ref → Result (List Ref) DbError
insert_refs h [] refs = ok refs
insert_refs h (r ∷ rs) refs =
    let rest = insert_refs h rs (refs ++ record { referrer = h; reference = r } ∷ []) in
    if any (same_ref h r) refs then err constraint else rest

unfoldable pub insert_object : Database → Object → ℕ → Result Database DbError
unfolding upsert insert_refs file_size
insert_object db obj now = do
  let previous = or_zero (file_size db obj.store_path_hash)
  refs ←
      insert_refs obj.store_path_hash obj.references
        (refs_without obj.store_path_hash db.object_refs)
  ok (record db {
    objects = upsert (row_of obj now) db.objects;
    object_refs = refs;
    total_bytes = db.total_bytes +ℤ (pos obj.file_size -ℤ pos previous);
  })

-- `SELECT reference FROM object_refs WHERE referrer = ?1 ORDER BY reference`.
unfoldable pub references_of : Database → Text → List Text
references_of db hash =
    sort_by text_lt (map (λ r. r.reference) (filter (λ r. text_eq r.referrer hash) db.object_refs))

abbrev pub object_of : Row → List Text → Object
object_of r references = record {
  store_path_hash = r.store_path_hash;
  store_path = r.store_path;
  name = r.name;
  nar_hash = r.nar_hash;
  nar_size = r.nar_size;
  file_hash = r.file_hash;
  file_size = r.file_size;
  deriver = r.deriver;
  ca = r.ca;
  references = references;
  sigs = r.sigs;
  pushed_by = r.pushed_by;
}

unfoldable pub get_object_and_last_accessed : Database → Text → Option (Object × ℕ)
unfolding references_of
get_object_and_last_accessed db hash =
    map_option (λ r. (object_of r (references_of db hash), r.last_accessed_at))
      (find hash db.objects)

unfoldable pub get_object : Database → Text → Option Object
unfolding get_object_and_last_accessed
get_object db hash = map_option (λ o. o.0) (get_object_and_last_accessed db hash)

unfoldable pub debit : Database → ℕ → Database
debit db bytes = record db { total_bytes = max0 (db.total_bytes -ℤ pos bytes) }

unfoldable pub remove_row : Database → Text → ℕ → Database
unfolding debit
remove_row db hash size =
    debit
      (record db {
        objects = without hash db.objects;
        object_refs = refs_without hash db.object_refs;
        pins = pins_without hash db.pins;
      })
      size

unfoldable pub delete_object : Database → Text → Option ℕ × Database
unfolding file_size remove_row
delete_object db hash = elim (file_size db hash) [
  | none ↦ (none, db)
  | some size ↦ (some size, remove_row db hash size)
]

abbrev pub set_sigs : Text → List Text → Row → Row
set_sigs hash sigs r = if text_eq r.store_path_hash hash then record r { sigs = sigs } else r

unfoldable pub update_sigs : Database → Text → List Text → Database
update_sigs db hash sigs = record db { objects = map (set_sigs hash sigs) db.objects }

unfoldable pub all_hashes : Database → List Text
all_hashes db = map (λ r. r.store_path_hash) db.objects

unfoldable pub all_objects_brief : Database → List ObjectBrief
all_objects_brief db = map brief db.objects

unfoldable pub object_count : Database → ℕ
object_count db = length db.objects
