-- ===== src/Gc/Tests.antt =====
-- The eviction pass of crates/garret-pusher/src/gc.rs over two rows, one referred to by the other.
use garret.Common.{
  false, not, List, All, ℕ, ◌≡◌, refl, true, not, none, some, [], ◌∷◌, Text, codes, text_eq, filter,
  any,
}
use garret.Common.Int.{pos}
use garret.InFlight.{State, Claim, new, contains, claim_delete, take, drop_claim}
use garret.InFlight.Claims.{lookup, remove}
use garret.Deletion.{Deletion, hold, queue_blob}
use garret.Storage.{Blob, orphan_hashes}
use garret.StorePath.Files.{key_for}
use garret.Db.Objects.{exists}
use garret.Gc.Sweep.{sweep_each, claim_orphans}
use garret.Gc.Sweep.Orphans.{orphaned, claim_orphans-orphaned}
use garret.Db.Schema.{Row, find}
use garret.Db.WellFormed.{IsWellFormed}
use garret.Gc.{Shared, Environment, Ending, evict}
use garret.Gc.Ends.{evict-Ended}
use garret.Gc.Timer.{Timer, one_turn, run_forever}
use garret.Gc.Timer.Turns.{Turned, entered, run_forever-Turned}
use garret.Gc.Endings.{Ended}

-- Nothing else runs, it is late, and S3 deletes what it is asked to.
abbrev alone : Environment
alone = record {
  others = λ n s. s;
  unix_now = λ n. 1000000;
  delete_objects = λ keys blobs. (filter (λ b. not (any (text_eq b) keys)) blobs, true);
}

abbrev row : Text → ℕ → Row
row hash size = record {
  store_path_hash = hash;
  store_path = hash;
  name = [];
  nar_hash = [];
  nar_size = 0;
  file_hash = [];
  file_size = size;
  deriver = none;
  ca = none;
  sigs = [];
  pushed_by = none;
  created_at = 7;
  last_accessed_at = 7;
  pushed_at = 7;
}

abbrev two : Shared
two = record {
  db = record {
    objects = row (codes "l") 30 ∷ row (codes "a") 12 ∷ [];
    object_refs = record { referrer = codes "a"; reference = codes "l" } ∷ [];
    pins = [];
    total_bytes = pos 42;
  };
  in_flight = new;
  blobs = codes "nar/l.nar.zst" ∷ codes "nar/a.nar.zst" ∷ [];
  waits = 0;
}

two-IsWellFormed : IsWellFormed two.db
unfolding find text_eq
two-IsWellFormed = record {
  unique = (refl, (refl, tt));
  refs_owned = (refl, tt);
  pins_owned = tt;
  counted = refl;
}

evict-Ended_example : (e : Ending) × (evict alone 3 20 two ≡ some e) × Ended alone 42 20 e
evict-Ended_example = evict-Ended alone (λ n s. refl) 20 two two-IsWellFormed

abbrev at_start : Timer
at_start = record { shared = two; last_sweep = none }

run_forever-Turned_example :
    (u : Timer) × (v : Timer) × (run_forever alone (λ n s. s) (λ s. []) (λ n. n) 60 40 20 0 at_start
      ≡ some u)
    × (one_turn alone (λ n s. s) (λ s. []) (λ n. n) 60 40 20 u ≡ some v)
    × IsWellFormed u.shared.db
    × Turned alone 40 20 (entered alone (λ n s. s) (λ s. []) (λ n. n) 60 40 20 u) u v
run_forever-Turned_example =
    run_forever-Turned alone (λ n s. refl) (λ n s. s) (λ s. []) (λ n. n) 60 40 20 0 at_start
      two-IsWellFormed

-- Of two old blobs, `l` has a row, though the sweep read the rows before it landed.
abbrev old_blobs : List Blob
old_blobs =
    record { hash = codes "l"; age = 900; size = 30 }
    ∷ record { hash = codes "z"; age = 900; size = 1 }
    ∷ []

abbrev in_flight : State
in_flight = record { claims = []; uploads = 0; quiescers = 0 }

abbrev claimed_orphans : State × Deletion
claimed_orphans = claim_orphans (λ n s. s) two.db in_flight old_blobs [] 60

only_z : claimed_orphans.1.keys ≡ codes "nar/z.nar.zst" ∷ []
unfolding claim_orphans sweep_each orphan_hashes contains lookup text_eq claim_delete take
    drop_claim remove hold queue_blob key_for exists find
only_z = refl

claim_orphans-orphaned_example :
    All
      (λ (c : Claim).
        (exists two.db c.hash ≡ false) × (orphaned old_blobs [] in_flight 60 c.hash ≡ true))
      claimed_orphans.1.claims
claim_orphans-orphaned_example = claim_orphans-orphaned (λ n s. s) two.db in_flight old_blobs [] 60
