-- ===== src/Admin/Tests.antt =====
-- crates/garret-pusher/src/admin.rs on a cache of `app`, which refers to `lib`, with nothing else
-- running.
use garret.Common.{ℕ, ◌≡◌, refl, true, false, none, List, [], ◌∷◌, Text, codes, text_eq}
use garret.Common.Int.{pos}
use garret.Common.Result.{ok}
use garret.InFlight.{take, drop_claim, claim_delete}
use garret.InFlight.Claims.{lookup, remove}
use garret.Db.Schema.{Row, Database, find, without}
use garret.Db.Objects.{get_object, delete_object, file_size, remove_row, debit, map_option}
use garret.Db.WellFormed.{IsWellFormed}
use garret.Deletion.{claim_all, claim_each, finish, queue_blob, drop_all}
use garret.Gc.{Shared, Environment}
use garret.Admin.{delete, unseen, delete_each, Deleted}
use garret.Admin.Dry.{delete-dry_run}
use garret.Admin.Commands.{Keys, resign}
use garret.Admin.Resigned.{resign_lem}
use garret.Admin.Sigs.{resigned_object}

abbrev hash_of : ℕ → Text
hash_of c = c ∷ codes "bcdfghijklmnpqrsvwxyz0123456789"

abbrev row : ℕ → ℕ → Row
row c size = record {
  store_path_hash = hash_of c;
  store_path = [];
  name = c ∷ [];
  nar_hash = [];
  nar_size = 0;
  file_hash = [];
  file_size = size;
  deriver = none;
  ca = none;
  sigs = codes "old" ∷ [];
  pushed_by = none;
  created_at = 7;
  last_accessed_at = 7;
  pushed_at = 7;
}

abbrev cache : Database
cache = record {
  objects = row b'l' 30 ∷ row b'a' 12 ∷ [];
  object_refs = record { referrer = hash_of b'a'; reference = hash_of b'l' } ∷ [];
  pins = [];
  total_bytes = pos 42;
}

cache-IsWellFormed : IsWellFormed cache
unfolding find text_eq
cache-IsWellFormed = record {
  unique = (refl, (refl, tt));
  refs_owned = (refl, tt);
  pins_owned = tt;
  counted = refl;
}

abbrev shared : Shared
shared = record {
  db = cache;
  in_flight = record { claims = []; uploads = 0; quiescers = 0 };
  blobs = [];
  waits = 0;
}

abbrev alone : Environment
alone = record {
  others = λ n s. s;
  unix_now = λ n. 90000;
  delete_objects = λ keys blobs. (blobs, true);
}

-- The path is named twice, and one that is not there.
abbrev named : List Text
named = hash_of b'l' ∷ hash_of b'x' ∷ hash_of b'l' ∷ []

abbrev done : Deleted
done = record { deleted = 1; bytes_freed = 30; missing = hash_of b'x' ∷ [] }

run_result : (delete alone shared named false).0 ≡ ok done
unfolding delete unseen delete_each claim_all claim_each take lookup remove drop_claim finish
    queue_blob drop_all delete_object file_size remove_row debit find without text_eq claim_delete
run_result = refl

delete-dry_run_example :
    ((delete alone shared named true).0 ≡ ok done) × ((delete alone shared named true).1.db ≡ cache)
delete-dry_run_example = delete-dry_run alone (λ n s. refl) shared named {d = done} run_result

abbrev keys : Keys
keys = record {
  signers = (λ t. codes "new") ∷ [];
  checkers = (λ sig t. text_eq sig (codes "old")) ∷ [];
  store_dir = codes "/nix/store";
}

resign_lem_example :
    get_object (resign alone keys shared).1.db (hash_of b'l')
    ≡ map_option (resigned_object keys) (get_object cache (hash_of b'l'))
resign_lem_example =
    resign_lem alone keys shared (λ n s. refl) cache-IsWellFormed.unique (hash_of b'l')
