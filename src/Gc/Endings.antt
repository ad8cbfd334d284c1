-- ===== src/Gc/Endings.antt =====
-- crates/garret-pusher/src/gc.rs: why an eviction pass ends.
use garret.Common.{
  ◌+◌, All, is_some, ℕ, suc, ◌≤◌, ◌<◌, ◌≡◌, refl, sym, ap, subst, ◌⊎◌, Bool, true, false, Option,
  none, some, List, [], ◌∷◌, arith, Text, inl, inr, length,
}
use garret.Common.Int.{pos, ltb_ℤ}
use garret.Db.Schema.{Database, sum_sizes}
use garret.Db.Evict.{evict_object, evictable}
use garret.Deletion.{finish}
use garret.InFlight.Claims.{lookup}
use garret.Gc.{
  batch_size, Shared, Pass, Environment, Ending, Tick, idle, ran, done, failed, exhausted,
  finish_batch, concluded, turn,
}
use garret.Gc.Exact.{IsExact}

-- Why a pass may stop, at its last wait `w`: the usage is down to the low watermark; no row can be
-- evicted at that time, which is reported; or there were candidates and every one was in flight.
pub data Reason (env : Environment) (low : ℕ) (q : Pass) : Type 0 where
  reached : sum_sizes q.shared.db.objects ≤ low → Reason env low q
  no_candidate :
      (w : ℕ)
      → q.shared.waits ≡ w + 1
      → ((h : Text) → evict_object q.shared.db h (env.unix_now w) ≡ (none, q.shared.db))
      → q.result.candidates_exhausted ≡ true
      → Reason env low q
  in_flight :
      (w : ℕ) (c : Text × ℕ) (cs : List (Text × ℕ))
      → q.shared.waits ≡ w + 1
      → evictable q.shared.db batch_size (env.unix_now w) ≡ c ∷ cs
      → All (λ (x : Text × ℕ). is_some (lookup x.0 q.shared.in_flight.claims) ≡ true) (c ∷ cs)
      → Reason env low q

-- S3 was asked to delete blobs, left those that are there, and reported a failure.
abbrev pub Undeleted : Environment → Pass → Type 0
Undeleted env q =
    (keys : List Text) × (blobs : List Text) × (env.delete_objects keys blobs
      ≡ (q.shared.blobs, false))

-- The counts are exact at the end, also when the blob delete failed.
abbrev pub Ended : Environment → ℕ → ℕ → Ending → Type 0
Ended env total low (done q) = IsExact total q × Reason env low q
Ended env total low (failed q) = IsExact total q × Undeleted env q

pub finish_batch-same :
    (env : Environment) (p : Pass)
    → ((finish_batch env p).0.shared.db ≡ p.shared.db)
      × ((finish_batch env p).0.usage ≡ p.usage)
      × ((finish_batch env p).0.result ≡ p.result)
      × ((finish_batch env p).0.settled ≡ p.settled)
unfolding finish_batch finish
finish_batch-same env p = (refl, refl, refl, refl)

-- The pass after a batch, by how the batch went.
pub same-IsExact :
    (total : ℕ) (p q : Pass)
    → q.shared.db ≡ p.shared.db
    → q.usage ≡ p.usage
    → q.result ≡ p.result
    → IsExact total p
    → IsExact total q
same-IsExact total p q db usage result v = record {
  well_formed = rw db v.well_formed;
  counted = rw (usage, db) v.counted;
  conserved = rw (db, result) v.conserved;
}

pub List-cases : {A : Type 0} (xs : List A) → (xs ≡ []) ⊎ ((y : A) × (ys : List A) × (xs ≡ y ∷ ys))
List-cases [] = inl refl
List-cases (y ∷ ys) = inr (y, ys, refl)

pub low_enough : (low s : ℕ) → ltb_ℤ (pos low) (pos s) ≡ false → s ≤ low
low_enough low s e = ground arith

pub not_both : {b : Bool} → b ≡ true → b ≡ false → ⊥
not_both e f = cc

pub fewer :
    {next : ℕ} (d d' : Database) {fuel : ℕ}
    → next < length d.objects
    → d ≡ d'
    → length d'.objects < suc fuel
    → next < fuel
fewer d d' less same h =
    let e : length d.objects ≡ length d'.objects = ap (λ (x : Database). length x.objects) same in
    omega (arith, e)

pub lt_suc : {m n : ℕ} → m ≡ n → m < suc n
lt_suc e = omega arith

-- The pass has an end, with what `Ended` says of it.
abbrev pub Ends : Environment → ℕ → ℕ → Option Ending → Type 0
Ends env total low o = (e : Ending) × (o ≡ some e) × Ended env total low e

-- What a tick promises, by what it did.
abbrev pub Ticked : Environment → ℕ → ℕ → Shared → Tick → Type 0
Ticked env high low s (idle t) = (t.db ≡ s.db) × (sum_sizes s.db.objects < high)
Ticked env high low s (ran o) =
    (high ≤ sum_sizes s.db.objects) × Ends env (sum_sizes s.db.objects) low o

concluded-Ends :
    (env : Environment) (deleted settled : Bool) (total low : ℕ) (q : Pass) (more : Option Ending)
    → IsExact total q
    → (deleted ≡ false → Undeleted env q)
    → (settled ≡ false → Reason env low q)
    → (settled ≡ true → Ends env total low more)
    → Ends env total low (concluded deleted settled q more)
unfolding concluded
concluded-Ends env false settled total low q more v kept busy rest =
    (failed q, refl, (v, kept refl))
concluded-Ends env true false total low q more v kept busy rest = (done q, refl, (v, busy refl))
concluded-Ends env true true total low q more v kept busy rest = rest refl

pub turn-Ends :
    (env : Environment) {total low : ℕ} {l : List (Text × ℕ)} (p : Pass) (next : Pass × Bool)
    (more : Option Ending) {c : Text × ℕ} {cs : List (Text × ℕ)}
    → l ≡ c ∷ cs
    → IsExact total next.0
    → (next.1 ≡ false → Undeleted env next.0)
    → (next.0.settled ≡ false → Reason env low next.0)
    → (next.0.settled ≡ true → Ends env total low more)
    → Ends env total low (turn l p next more)
unfolding turn
turn-Ends env {total} {low} p next more e v kept busy rest =
    subst (λ x. Ends env total low (turn x p next more)) (sym e)
      (concluded-Ends env next.1 next.0.settled total low next.0 more v kept busy rest)

pub turn-empty :
    {l : List (Text × ℕ)} (p : Pass) (next : Pass × Bool) (more : Option Ending)
    → l ≡ []
    → turn l p next more ≡ some (done (exhausted p))
unfolding turn
turn-empty p next more e = ap (λ x. turn x p next more) e
