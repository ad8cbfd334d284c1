-- ===== src/Gc/Exact.antt =====
-- crates/garret-pusher/src/gc.rs: a pass whose counts are exact, and one try of a candidate.
use garret.Common.{
  is_some, ℕ, ◌+◌, ◌≤◌, ◌<◌, ◌≡◌, refl, sym, ap, subst, ◌∙◌, true, Option, none, some, List, [],
  ◌∷◌, arith, Text, inl, inr, Option-cases, Bool-cases, length,
}
use garret.Common.Int.{pos, ◌-ℤ◌, -ℤ_pos}
use garret.InFlight.{Claim}
use garret.InFlight.Claims.{lookup}
use garret.Db.Schema.{Row, Database, find, without, sum_sizes}
use garret.Db.Objects.{remove_row, debit}
use garret.Db.Evict.{evict_object, evictable_where}
use garret.Db.Rows.{sum_sizes-without, size_of}
use garret.Db.WellFormed.{IsWellFormed, evict_object-IsWellFormed}
use garret.Db.Protected.{evict_object_taken, evict_object_kept, evict_object_absent}
use garret.Gc.{PassResult, Pass, Environment, evicted}

-- Some number of bytes left with a row, or nothing changed.
abbrev Shrinks : Database → Option ℕ × Database → Type 0
Shrinks db (none, d) = d ≡ db
Shrinks db (some size, d) =
    (length d.objects < length db.objects) × (sum_sizes d.objects + size ≡ sum_sizes db.objects)

length-without : (h : Text) (rows : List Row) → length (without h rows) ≤ length rows
unfolding without
length-without h [] = omega arith
length-without h (x ∷ rows) = ground (arith, length-without h rows)

length-without-found :
    (h : Text) (rows : List Row) {r : Row}
    → find h rows ≡ some r
    → length (without h rows) < length rows
unfolding find without
length-without-found h [] f = cc
length-without-found h (x ∷ rows) {r} f =
    ground (arith, length-without h rows, length-without-found h rows {r = r})

-- An eviction that answers a size removes a row, and the sum of the sizes falls by it; one that
-- answers none changes nothing.
evict_object-Shrinks :
    (db : Database) (h : Text) (at : ℕ) → IsWellFormed db → Shrinks db (evict_object db h at)
unfolding remove_row debit
evict_object-Shrinks db h at w = elim (Option-cases (find h db.objects)) [
  | inl n ↦ rw (evict_object_absent db h at n)
  | inr (r, f) ↦ elim (Bool-cases (evictable_where db at r)) [
    | inr b ↦ rw (evict_object_kept db h at f b)
    | inl t ↦ rw (evict_object_taken db h at f t) (
      length-without-found h db.objects f,
      ap (λ o. sum_sizes (without h db.objects) + size_of o) (sym f)
          ∙ sum_sizes-without h db.objects w.unique,
    )
  ]
]

-- What holds of a pass while nothing else runs: the usage that it counts is the sum of the
-- sizes, and with the bytes freed it makes the total that there was.
pub record IsExact (total : ℕ) (p : Pass) : Type 0 where
  pub well_formed : IsWellFormed p.shared.db
  pub counted : p.usage ≡ pos (sum_sizes p.shared.db.objects)
  pub conserved : sum_sizes p.shared.db.objects + p.result.bytes_freed ≡ total

-- A candidate was refused its claim, or stayed, or went with `size` bytes.
pub data Tried (at : ℕ) (p : Pass) (h : Text) (q : Pass) : Type 0 where
  refused : is_some (lookup h p.shared.in_flight.claims) ≡ true → q ≡ p → Tried at p h q
  stayed :
      (evict_object p.shared.db h at).0 ≡ none
      → q.shared.db ≡ p.shared.db
      → q.usage ≡ p.usage
      → q.result.bytes_freed ≡ p.result.bytes_freed
      → q.settled ≡ true
      → Tried at p h q
  went :
      (size : ℕ)
      → (evict_object p.shared.db h at).0 ≡ some size
      → q.shared.db ≡ (evict_object p.shared.db h at).1
      → q.usage ≡ p.usage -ℤ pos size
      → q.result.bytes_freed ≡ p.result.bytes_freed + size
      → q.settled ≡ true
      → Tried at p h q

-- `evict_object` answered, at the database that the wait left.
pub answered :
    (env : Environment) (at : ℕ) (p q : Pass) (h : Text) (c : Claim) (x : Option ℕ × Database)
    → evict_object p.shared.db h at ≡ x
    → q.shared.db ≡ p.shared.db
    → q.usage ≡ p.usage
    → q.result ≡ p.result
    → evict_object q.shared.db h at ≡ x
    → Tried at p h (evicted env q c x)
answered env at p q h c (none, d) e same usage result e' =
    stayed (ap (λ y. y.0) e) same usage (ap (λ (y : PassResult). y.bytes_freed) result) refl
answered env at p q h c (some size, d) e same usage result e' =
    went size (ap (λ y. y.0) e) (sym (ap (λ y. y.1) e)) (ap (λ u. u -ℤ pos size) usage)
      (ap (λ (y : PassResult). y.bytes_freed + size) result) refl

sums :
    (size before after freed : ℕ) {total : ℕ}
    → after + size ≡ before
    → before + freed ≡ total
    → after + (freed + size) ≡ total
sums size before after freed e f = omega arith

pub went_sum :
    (total : ℕ) (p : Pass) (h : Text) (at size : ℕ)
    → IsExact total p
    → (evict_object p.shared.db h at).0 ≡ some size
    → (length (evict_object p.shared.db h at).1.objects < length p.shared.db.objects)
      × (sum_sizes (evict_object p.shared.db h at).1.objects + size ≡ sum_sizes p.shared.db.objects)
went_sum total p h at size v n =
    let x = evict_object p.shared.db h at in
    let d : Database = x.1 in
    let e : x ≡ (some size, d) = λ i. (n i, d) in
    subst (λ y. Shrinks p.shared.db y) e (evict_object-Shrinks p.shared.db h at v.well_formed)

pub Tried-IsExact :
    (total at : ℕ) (p : Pass) (h : Text) (q : Pass)
    → IsExact total p
    → Tried at p h q
    → IsExact total q
Tried-IsExact total at p h q v (refused b e) = rw e v
Tried-IsExact total at p h q v (stayed n db usage bytes s) = record {
  well_formed = rw db v.well_formed;
  counted = rw (usage, db) v.counted;
  conserved = rw (db, bytes) v.conserved;
}
Tried-IsExact total at p h q v (went size n db usage bytes s) =
    let (_, sum) = went_sum total p h at size v n in
    record {
      well_formed = rw db (evict_object-IsWellFormed p.shared.db h at v.well_formed);
      counted =
          rw (usage, db, v.counted)
            (-ℤ_pos (sum_sizes p.shared.db.objects) size (omega arith) ∙ ap pos (omega arith));
      conserved =
          rw (db, bytes)
            (sums size (sum_sizes p.shared.db.objects)
              (sum_sizes (evict_object p.shared.db h at).1.objects) p.result.bytes_freed sum
              v.conserved);
    }

pub le_of_lt' : {a b : ℕ} → a < b → a ≤ b
le_of_lt' h = omega arith

pub lt_trans' : {a b c : ℕ} → a ≤ b → b < c → a < c
lt_trans' h k = omega arith

pub some-none : {o : Option ℕ} {n : ℕ} → o ≡ none → o ≡ some n → ⊥
some-none e f = cc
