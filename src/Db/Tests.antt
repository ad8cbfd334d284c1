-- ===== src/Db/Tests.antt =====
-- crates/garret-server/src/db.rs on a cache of two paths, `app` that refers to `lib`.
use garret.Common.{
  ℕ, ◌≤◌, ◌≡◌, ◌↔◌, refl, true, none, some, List, [], ◌∷◌, Text, codes, text_eq, text_lt, arith,
  All, length, if◌then◌else◌,
}
use garret.Common.Int.{pos, ◌+ℤ◌, ◌-ℤ◌}
use garret.Common.Result.{ok, err}
use garret.Db.Schema.{
  Object, Row, Ref, Database, empty, find, has, reference_hash, sort_by, refs_without,
}
use garret.Db.Objects.{constraint, insert_object, insert_refs, upsert, file_size, get_object}
use garret.Db.Evict.{evictable_where, evictable, evict_object}
use garret.Db.Negotiate.{missing}
use garret.Db.Inserted.{insert_object-IsWellFormed}
use garret.Db.WellFormed.{IsWellFormed, empty-IsWellFormed}
use garret.Db.Duplicates.{insert_object-fails_iff, has_duplicate}
use garret.Db.Insert.{insert_object-get_object}
use garret.Db.Protected.{IsEvictable, evict_object_iff, evict_object_closed}
use garret.Db.Candidates.{evictable-evict_object}
use garret.Db.Refresh.{missing-evict_object}

-- A hash of 32 bytes.
abbrev hash_of : ℕ → Text
hash_of c = c ∷ codes "bcdfghijklmnpqrsvwxyz0123456789"

abbrev lib_hash : Text
lib_hash = hash_of b'l'

abbrev app_hash : Text
app_hash = hash_of b'a'

abbrev object : Text → ℕ → List Text → Object
object hash size references = record {
  store_path_hash = hash;
  store_path = hash;
  name = [];
  nar_hash = [];
  nar_size = 0;
  file_hash = [];
  file_size = size;
  deriver = none;
  ca = none;
  references = references;
  sigs = [];
  pushed_by = none;
}

abbrev lib : Object
lib = object lib_hash 30 []

abbrev app : Object
app = object app_hash 12 (lib_hash ∷ [])

abbrev row : Text → ℕ → Row
row hash size = record {
  store_path_hash = hash;
  store_path = hash;
  name = [];
  nar_hash = [];
  nar_size = 0;
  file_hash = [];
  file_size = size;
  deriver = none;
  ca = none;
  sigs = [];
  pushed_by = none;
  created_at = 7;
  last_accessed_at = 7;
  pushed_at = 7;
}

-- After both pushes, at time 7.
abbrev both : Database
both = record {
  objects = row lib_hash 30 ∷ row app_hash 12 ∷ [];
  object_refs = record { referrer = app_hash; reference = lib_hash } ∷ [];
  pins = [];
  total_bytes = pos 42;
}

abbrev first : Database
first = record { objects = row lib_hash 30 ∷ []; object_refs = []; pins = []; total_bytes = pos 30 }

first_pushed : insert_object empty lib 7 ≡ ok first
unfolding insert_object insert_refs upsert file_size find refs_without ◌+ℤ◌ ◌-ℤ◌
first_pushed = refl

second_pushed : insert_object first app 7 ≡ ok both
unfolding insert_object insert_refs upsert file_size find refs_without text_eq ◌+ℤ◌ ◌-ℤ◌
second_pushed = refl

both-IsWellFormed : IsWellFormed both
both-IsWellFormed =
    insert_object-IsWellFormed first app 7
      (insert_object-IsWellFormed empty lib 7 empty-IsWellFormed first_pushed) second_pushed

insert_object-IsWellFormed_example : IsWellFormed first
insert_object-IsWellFormed_example =
    insert_object-IsWellFormed empty lib 7 empty-IsWellFormed first_pushed

insert_object-get_object_example :
    (get_object both lib_hash ≡ (
      if text_eq app_hash lib_hash
      then some (record app { references = sort_by text_lt (lib_hash ∷ []) })
      else get_object first lib_hash))
    × (both.pins ≡ first.pins)
insert_object-get_object_example = insert_object-get_object first app 7 lib_hash second_pushed

insert_object-fails_iff_example :
    (insert_object empty (object app_hash 12 (lib_hash ∷ lib_hash ∷ [])) 7 ≡ err constraint)
    ↔ (has_duplicate (lib_hash ∷ lib_hash ∷ []) ≡ true)
insert_object-fails_iff_example =
    insert_object-fails_iff empty (object app_hash 12 (lib_hash ∷ lib_hash ∷ [])) 7

lib_stays : (evict_object both lib_hash 90000).0 ≡ none
unfolding evict_object evictable_where find text_eq
lib_stays = refl

evict_object_iff_example : ((evict_object both app_hash 90000).0 ≡ some 12) ↔ (
    (r : Row) × (find app_hash both.objects ≡ some r)
    × (r.file_size ≡ 12)
    × IsEvictable both 90000 r)
evict_object_iff_example = evict_object_iff both app_hash 90000 12

evict_object_closed_example :
    All
      (λ (r : Ref).
        find (reference_hash r) (evict_object both app_hash 90000).1.objects
        ≡ find (reference_hash r) both.objects)
      (evict_object both app_hash 90000).1.object_refs
evict_object_closed_example = evict_object_closed both app_hash 90000

evictable-evict_object_example :
    All (λ (c : Text × ℕ). (evict_object both c.0 90000).0 ≡ some c.1) (evictable both 2 90000)
    × (length (evictable both 2 90000) ≤ 2)
evictable-evict_object_example = evictable-evict_object both 2 90000 both-IsWellFormed.unique

missing-evict_object_example :
    (has (missing both (app_hash ∷ []) 90000).1 app_hash ≡ true)
    × (evict_object (missing both (app_hash ∷ []) 90000).1 app_hash 170000
        ≡ (none, (missing both (app_hash ∷ []) 90000).1))
unfolding find text_eq
missing-evict_object_example =
    missing-evict_object both (app_hash ∷ []) 90000 170000 app_hash refl refl (omega arith)
