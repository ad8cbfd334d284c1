-- ===== src/Fsck/Tests.antt =====
-- crates/garret-pusher/src/fsck.rs over two rows of which one has lost its blob.
use garret.Common.{
  ℕ, ◌≤◌, ◌≡◌, ◌↔◌, refl, true, false, none, some, [], ◌∷◌, Text, codes, text_eq, any,
  if◌then◌else◌,
}
use garret.Common.Int.{pos}
use garret.InFlight.{new, contains}
use garret.InFlight.Claims.{upload, lookup}
use garret.Db.Schema.{Row, ObjectBrief, find}
use garret.Db.WellFormed.{IsWellFormed}
use garret.Gc.{Shared}
use garret.Fsck.{Drift, dangling, Finding, found, s3_size, classify_row, Environment, apply_repair}
use garret.Fsck.Classify.{Drifts, classify_row_iff}
use garret.Fsck.Repairs.{names_row, at_of, apply_repair-find}

abbrev row : Text → ℕ → Row
row hash created = record {
  store_path_hash = hash;
  store_path = hash;
  name = [];
  nar_hash = [];
  nar_size = 0;
  file_hash = [];
  file_size = 5;
  deriver = none;
  ca = none;
  sigs = [];
  pushed_by = none;
  created_at = created;
  last_accessed_at = created;
  pushed_at = created;
}

abbrev brief_a : ObjectBrief
brief_a = record { store_path_hash = codes "a"; name = []; created_at = 7; file_size = 5 }

-- One upload is under way on another path.
abbrev start : Shared
start = record {
  db = record {
    objects = row (codes "a") 7 ∷ row (codes "b") 8 ∷ [];
    object_refs = [];
    pins = [];
    total_bytes = pos 10;
  };
  in_flight = record { claims = (codes "u", upload) ∷ []; uploads = 1; quiescers = 0 };
  blobs = [];
  waits = 0;
}

start-IsWellFormed : IsWellFormed start.db
unfolding find text_eq
start-IsWellFormed = record {
  unique = (refl, (refl, tt));
  refs_owned = tt;
  pins_owned = tt;
  counted = refl;
}

abbrev alone : Environment
alone = record {
  others = λ n s. s;
  list_blobs = λ s. record { hash = codes "b"; age = 900; size = 5 } ∷ [];
  unix_now = λ n. 1000;
}

abbrev finding : Text → ℕ → Finding
finding hash at = record { hash = hash; name = []; listed_at = at; drift = dangling }

a_is_dangling :
    classify_row (alone.list_blobs start) start.in_flight 60 1000 true brief_a
    ≡ some (found brief_a dangling)
unfolding classify_row contains lookup s3_size text_eq
a_is_dangling = refl

classify_row_iff_example :
    (classify_row [] new 60 1000 true brief_a ≡ some (finding (codes "a") 7)) ↔ (
      (contains new (codes "a") ≡ false)
      × (67 ≤ 1000)
      × (d : Drift) × (finding (codes "a") 7 ≡ found brief_a d)
      × Drifts true brief_a (s3_size (codes "a") []) d)
classify_row_iff_example = classify_row_iff [] new 60 1000 true brief_a (finding (codes "a") 7)

-- The row of `b` was listed at 3 and pushed again at 8.
apply_repair-find_example :
    find
      (codes "b")
      (apply_repair alone start (finding (codes "a") 7 ∷ finding (codes "b") 3 ∷ [])).1.db.objects
    ≡ (if any
          (names_row (codes "b") (at_of (find (codes "b") start.db.objects)))
          (finding (codes "a") 7 ∷ finding (codes "b") 3 ∷ [])
        then none
        else find (codes "b") start.db.objects)
apply_repair-find_example =
    apply_repair-find alone (codes "b") (λ n t. refl) start
      (finding (codes "a") 7 ∷ finding (codes "b") 3 ∷ [])
