-- ===== src/Db/Prune.antt =====
-- crates/garret-server/src/db.rs: prune. `prunable` marks from what stays, a recursive query, and
-- `delete_pruned` deletes the rest in batches, referrers before their references.
pub mod Marking
pub mod Mark
pub mod Kahn
pub mod Sums
pub mod Order
pub mod Place
pub mod Edges
pub mod Batch
pub mod Deletes
pub mod Listed
pub mod Front
pub mod Closed
pub mod Freed
mod Tests
use garret.Common.{
  mem, ℕ, zero, suc, ◌+◌, ◌-◌, Bool, not, ◌&&◌, Option, none, some, List, [], ◌∷◌, ◌++◌, map,
  if◌then◌else◌, Text, text_eq, text_lt, filter, any, is_some, length, take, drop, get_elem?, leb,
  ◌==◌,
}
use garret.Common.Result.{Result, ok, err, ◌>>=◌}
use garret.Db.Schema.{
  Row, Ref, PinRow, Database, ObjectBrief, brief, reference_hash, without, refs_without,
  pins_without, sort_by,
}
use garret.Db.Objects.{debit}
use garret.Db.Evict.{is_live, push_grace}

pub data PruneError : Type 0 where
  cutoff_too_recent : PruneError
  reference_cycle : PruneError

-- The two initial selects of `keep`.
abbrev pub roots : Database → ℕ → ℕ → List Text
roots db before now =
    map (λ o. o.store_path_hash) (filter (λ o. leb before o.pushed_at) db.objects)
    ++ map (λ p. p.store_path_hash) (filter (is_live now) db.pins)

-- The recursive select for one row of `keep`.
abbrev pub joined : List Ref → Text → List Text
joined refs h = map reference_hash (filter (λ r. text_eq r.referrer h) refs)

-- `UNION`: what the table lacks is added to it, and to the queue of rows still to be joined.
unfoldable pub add : Text → List Text × List Text → List Text × List Text
add h keep = if mem h keep.1 then keep else (keep.0 ++ h ∷ [], h ∷ keep.1)

unfoldable pub union : List Text → List Text × List Text → List Text × List Text
unfolding add
union [] keep = keep
union (h ∷ hs) keep = union hs (add h keep)

-- One row of the queue at a time until it is empty; the pair is the queue and the table.
unfoldable pub mark : ℕ → List Ref → List Text × List Text → List Text
unfolding union
mark zero refs keep = keep.1
mark (suc fuel) refs ([], table) = table
mark (suc fuel) refs (h ∷ queue, table) = mark fuel refs (union (joined refs h) (queue, table))

-- A row enters the queue at most once, from the initial selects or by a reference.
unfoldable pub keep : Database → ℕ → ℕ → List Text
unfolding union mark
keep db before now =
    mark (length (roots db before now) + length db.object_refs) db.object_refs
      (union (roots db before now) ([], []))

-- `ORDER BY name, store_path_hash`.
unfoldable pub named_before : ObjectBrief → ObjectBrief → Bool
named_before a b =
    if text_lt a.name b.name
    then Bool.true
    else text_eq a.name b.name && text_lt a.store_path_hash b.store_path_hash

unfoldable pub prunable : Database → ℕ → ℕ → Result (List ObjectBrief) PruneError
unfolding keep named_before sort_by
prunable db before now =
    if leb (before + push_grace) now
    then ok (
        sort_by named_before
          (map brief (filter (λ o. not (mem o.store_path_hash (keep db before now))) db.objects)))
    else err cutoff_too_recent

-- The map `index`, from a hash to the last place it stands at.
unfoldable pub index : ℕ → List ObjectBrief → Text → Option ℕ
index i [] h = none
index i (o ∷ doomed) h = elim (index (suc i) doomed h) [
  | some j ↦ some j
  | none ↦ if text_eq o.store_path_hash h then some i else none
]

-- `references[i]`: the edges inside the set, without those of an object to itself.
abbrev pub edge : ℕ → Option ℕ → List ℕ → List ℕ
edge i none rest = rest
edge i (some j) rest = if j == i then rest else j ∷ rest

unfoldable pub inside : List ObjectBrief → ℕ → List Text → List ℕ
unfolding index
inside doomed i [] = []
inside doomed i (h ∷ hs) = edge i (index 0 doomed h) (inside doomed i hs)

unfoldable pub references : List Ref → List ObjectBrief → ℕ → List ObjectBrief → List (List ℕ)
unfolding inside
references refs doomed i [] = []
references refs doomed i (o ∷ objects) =
    inside doomed i (joined refs o.store_path_hash) ∷ references refs doomed (suc i) objects

-- `v[i]`; a place outside the vector is not asked for.
abbrev pub nth : List ℕ → ℕ → ℕ
nth [] i = 0
nth (x ∷ xs) zero = x
nth (x ∷ xs) (suc i) = nth xs i

abbrev pub row : List (List ℕ) → ℕ → List ℕ
row [] i = []
row (js ∷ rows) zero = js
row (js ∷ rows) (suc i) = row rows i

abbrev pub update : (ℕ → ℕ) → ℕ → List ℕ → List ℕ
update f i [] = []
update f zero (x ∷ xs) = f x ∷ xs
update f (suc i) (x ∷ xs) = x ∷ update f i xs

-- `vec![0; n]`.
abbrev pub zeros : ℕ → List ℕ
zeros zero = []
zeros (suc n) = 0 ∷ zeros n

-- `referrers[j] += 1` for each edge to `j`.
unfoldable pub credit : List ℕ → List ℕ → List ℕ
credit [] referrers = referrers
credit (j ∷ js) referrers = credit js (update suc j referrers)

unfoldable pub count : List (List ℕ) → List ℕ → List ℕ
unfolding credit
count [] referrers = referrers
count (js ∷ rows) referrers = count rows (credit js referrers)

-- `referrers[j] -= 1` for each edge to `j`, which is ready when none is left. The end of the vector
-- `ready`, where it is pushed and popped, is the head of the list.
unfoldable pub release : List ℕ → List ℕ × List ℕ → List ℕ × List ℕ
release [] s = s
release (j ∷ js) s =
    let left = update (λ n. n - 1) j s.0 in
    release js (left, if nth left j == 0 then j ∷ s.1 else s.1)

-- The `while let` loop; the pair is `referrers` and `ready`. A turn adds an index to the order.
unfoldable pub kahn : ℕ → List (List ℕ) → List ℕ × List ℕ → List ℕ → List ℕ
unfolding release
kahn zero refs s order = order
kahn (suc fuel) refs (referrers, []) order = order
kahn (suc fuel) refs (referrers, i ∷ ready) order =
    kahn fuel refs (release (row refs i) (referrers, ready)) (order ++ i ∷ [])

-- The places of a 0 in `referrers`, the last one first.
unfoldable pub ready_from : ℕ → List ℕ → List ℕ → List ℕ
ready_from i [] found = found
ready_from i (n ∷ ns) found = ready_from (suc i) ns (if n == 0 then i ∷ found else found)

-- As many turns as there are objects are enough.
unfoldable pub order_of : ℕ → List (List ℕ) → List ℕ
unfolding kahn ready_from count
order_of n refs =
    let referrers = count refs (zeros n) in kahn n refs (referrers, ready_from 0 referrers []) []

unfoldable pub referrers_first : Database → List ObjectBrief → Result (List ℕ) PruneError
unfolding references order_of
referrers_first db doomed =
    let order = order_of (length doomed) (references db.object_refs doomed 0 doomed) in
    if length order == length doomed then ok order else err reference_cycle

abbrev pub prune_batch : ℕ
prune_batch = 500

-- `chunks(n)`; as many chunks as there are entries are enough.
unfoldable pub chunks {ℓ} : {A : Type ℓ} → ℕ → ℕ → List A → List (List A)
chunks zero n xs = []
chunks (suc fuel) n [] = []
chunks (suc fuel) n (x ∷ xs) = take n (x ∷ xs) ∷ chunks fuel n (drop n (x ∷ xs))

-- `doomed[i]`; a place outside the list is not asked for.
abbrev pub entry : Option ObjectBrief → List ObjectBrief → List ObjectBrief
entry none rest = rest
entry (some o) rest = o ∷ rest

unfoldable pub pick : List ObjectBrief → List ℕ → List ObjectBrief
pick doomed [] = []
pick doomed (i ∷ is) = entry (get_elem? doomed i) (pick doomed is)

abbrev pub sum_brief : List ObjectBrief → ℕ
sum_brief [] = 0
sum_brief (o ∷ os) = o.file_size + sum_brief os

unfoldable pub delete_rows : List ObjectBrief → Database → Database
delete_rows [] db = db
delete_rows (o ∷ os) db = delete_rows os (record db {
  objects = without o.store_path_hash db.objects;
  object_refs = refs_without o.store_path_hash db.object_refs;
  pins = pins_without o.store_path_hash db.pins;
})

-- A write transaction.
unfoldable pub delete_batch : List ObjectBrief → Database → Database
unfolding delete_rows debit
delete_batch batch db = debit (delete_rows batch db) (sum_brief batch)

unfoldable pub delete_batches : List (List ObjectBrief) → Database → Database
unfolding delete_batch
delete_batches [] db = db
delete_batches (batch ∷ batches) db = delete_batches batches (delete_batch batch db)

-- The batches, in the order that they are committed in.
unfoldable pub batches : Database → List ObjectBrief → Result (List (List ObjectBrief)) PruneError
unfolding referrers_first chunks pick
batches db doomed = do
  order ← referrers_first db doomed
  ok (map (pick doomed) (chunks (length order) prune_batch order))

unfoldable pub delete_pruned : Database → List ObjectBrief → Result Database PruneError
unfolding batches delete_batches
delete_pruned db doomed = do split ← batches db doomed; ok (delete_batches split db)
