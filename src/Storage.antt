-- ===== src/Storage.antt =====
-- crates/garret-server/src/storage.rs: the blobs of a listing, and which of them are orphans.
pub mod Budget
pub mod Stream
use garret.Common.{mem, ℕ, Bool, not, ◌&&◌, List, map, Text, text_eq, filter, any, leb}
use garret.InFlight.{State, contains}

pub record Blob : Type 0 where
  pub hash : Text
  pub age : ℕ
  pub size : ℕ

-- The closure of `filter`.
abbrev pub is_orphan : List Text → State → ℕ → Blob → Bool
is_orphan known in_flight grace blob =
    not (mem blob.hash known) && not (contains in_flight blob.hash) && leb grace blob.age

unfoldable pub orphan_hashes : List Blob → List Text → State → ℕ → List Text
unfolding contains
orphan_hashes blobs known in_flight grace =
    map (λ b. b.hash) (filter (is_orphan known in_flight grace) blobs)
