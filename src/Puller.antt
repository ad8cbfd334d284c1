-- ===== src/Puller.antt =====
-- crates/garret-puller/src/main.rs: the last-accessed bumps that wait for a flush. The set is a list in
-- the order of its first hits.
pub mod Queue
mod Tests
use garret.Common.{ℕ, ◌+◌, Bool, List, [], ◌∷◌, ◌++◌, if◌then◌else◌, Text, mem, length, leb}
use garret.Db.Schema.{Database}
use garret.Db.Negotiate.{bump_last_accessed}

pub record Bumps : Type 0 where
  pub pending : List Text
  pub debounce : ℕ

abbrev pub new_bumps : ℕ → Bumps
new_bumps debounce = record { pending = []; debounce = debounce }

abbrev pub inserted_hash : Text → List Text → List Text
inserted_hash hash pending = if mem hash pending then pending else pending ++ hash ∷ []

unfoldable pub hit : Bumps → Text → ℕ → ℕ → Bumps
hit b hash last_accessed_at now =
    if leb now (last_accessed_at + b.debounce)
    then b
    else record b { pending = inserted_hash hash b.pending }

-- `flush`, of a write that SQLite takes or not: the batch is taken either way.
unfoldable pub flush_bumps : Bumps → Database → ℕ → Bool → Bumps × Database
unfolding bump_last_accessed
flush_bumps b db now writes = (
  record b { pending = [] },
  if writes then bump_last_accessed db b.pending now b.debounce else db,
)
