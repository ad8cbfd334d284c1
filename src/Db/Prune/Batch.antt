-- ===== src/Db/Prune/Batch.antt =====
-- crates/garret-server/src/db.rs: what one batch of a prune deletes.
use garret.Common.{ℕ, ◌+◌, ◌-◌, ◌≡◌, refl, sym, ap, subst, ◌∙◌, some, List, [], ◌∷◌, arith}
use garret.Common.Int.{pos, debit_counter, debit_stops, max0, ◌-ℤ◌}
use garret.Db.Schema.{
  Row, Ref, PinRow, Database, ObjectBrief, find, without, refs_without, pins_without, sum_sizes,
}
use garret.Db.Objects.{remove_row, debit}
use garret.Db.WellFormed.{IsWellFormed, remove_row-IsWellFormed}
use garret.Db.Prune.{sum_brief, delete_rows, delete_batch}

-- Every brief is of a row that is there when its turn comes.
abbrev pub Matches : List Row → List ObjectBrief → Type 0
Matches rows [] = Unit
Matches rows (o ∷ os) =
    ((r : Row) × (find o.store_path_hash rows ≡ some r) × (r.file_size ≡ o.file_size))
    × Matches (without o.store_path_hash rows) os

-- The rows and the references that some deletes leave.
abbrev pub left : List ObjectBrief → List Row → List Row
left [] rows = rows
left (o ∷ os) rows = left os (without o.store_path_hash rows)

abbrev pub refs_left : List ObjectBrief → List Ref → List Ref
refs_left [] refs = refs
refs_left (o ∷ os) refs = refs_left os (refs_without o.store_path_hash refs)

abbrev pins_left : List ObjectBrief → List PinRow → List PinRow
pins_left [] pins = pins
pins_left (o ∷ os) pins = pins_left os (pins_without o.store_path_hash pins)

pub delete_rows-eq :
    (os : List ObjectBrief) (db : Database)
    → delete_rows os db ≡ record {
      objects = left os db.objects;
      object_refs = refs_left os db.object_refs;
      pins = pins_left os db.pins;
      total_bytes = db.total_bytes;
    }
unfolding delete_rows
delete_rows-eq [] db = refl
delete_rows-eq (o ∷ os) db = delete_rows-eq os _

-- A batch is the single deletes, one after another.
delete_batch-remove_row :
    (o : ObjectBrief) (os : List ObjectBrief) (db : Database) {t : ℕ}
    → db.total_bytes ≡ pos t
    → delete_batch (o ∷ os) db ≡ delete_batch os (remove_row db o.store_path_hash o.file_size)
unfolding delete_batch delete_rows remove_row debit
delete_batch-remove_row o os db {t} e =
    ap (λ d. debit d (o.file_size + sum_brief os))
      (delete_rows-eq os (record db {
        objects = without o.store_path_hash db.objects;
        object_refs = refs_without o.store_path_hash db.object_refs;
        pins = pins_without o.store_path_hash db.pins;
      }))
    ∙ ap
        (λ n. record {
          objects = left os (without o.store_path_hash db.objects);
          object_refs = refs_left os (refs_without o.store_path_hash db.object_refs);
          pins = pins_left os (pins_without o.store_path_hash db.pins);
          total_bytes = n;
        })
        (rw e (
          debit_stops t (o.file_size + sum_brief os)
          ∙ ap pos (omega arith)
          ∙ sym (debit_stops (t - o.file_size) (sum_brief os))
          ∙ ap (λ n. max0 (n -ℤ pos (sum_brief os))) (sym (debit_stops t o.file_size))))
    ∙ sym (
        ap (λ d. debit d (sum_brief os))
          (delete_rows-eq os (remove_row db o.store_path_hash o.file_size)))

pub delete_batch-IsWellFormed :
    (os : List ObjectBrief) (db : Database)
    → IsWellFormed db
    → Matches db.objects os
    → IsWellFormed (delete_batch os db)
unfolding delete_batch delete_rows debit remove_row
delete_batch-IsWellFormed [] db w m = record {
  unique = w.unique;
  refs_owned = w.refs_owned;
  pins_owned = w.pins_owned;
  counted =
      rw w.counted (debit_counter (sum_sizes db.objects) 0 (omega arith) ∙ ap pos (omega arith));
}
delete_batch-IsWellFormed (o ∷ os) db w (((r, found, size), m)) =
    subst IsWellFormed (sym (delete_batch-remove_row o os db {t = sum_sizes db.objects} w.counted))
      (delete_batch-IsWellFormed os (remove_row db o.store_path_hash o.file_size)
        (subst (λ n. IsWellFormed (remove_row db o.store_path_hash n)) size
          (remove_row-IsWellFormed db o.store_path_hash {r = r} w found))
        m)
