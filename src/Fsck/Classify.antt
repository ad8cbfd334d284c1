-- ===== src/Fsck/Classify.antt =====
-- `classify_rows` of crates/garret-pusher/src/fsck.rs against what its documentation says.
use garret.Common.{
  some-injective, ℕ, ◌+◌, ◌≤◌, ◌≡◌, ◌≢◌, ◌↔◌, refl, sym, ap, ◌∙◌, Bool, true, false, not, ◌&&◌,
  Option, none, some, List, arith, ◌==◌, ==_iff, inl, inr, Bool-cases,
}
use garret.InFlight.{State, contains}
use garret.Db.Schema.{ObjectBrief}
use garret.Storage.{Blob}
use garret.Fsck.{
  Drift, dangling, size_mismatch, Finding, found, s3_size, drift_of, guarded, classify_row,
}

-- How a row disagrees with the size of its blob: it has none, or, where sizes are verified, another.
abbrev pub Drifts : Bool → ObjectBrief → Option ℕ → Drift → Type 0
Drifts verify_sizes row o dangling = o ≡ none
Drifts verify_sizes row o (size_mismatch db s3) =
    (verify_sizes ≡ true) × (o ≡ some s3) × (db ≡ row.file_size) × (s3 ≢ row.file_size)

drift_of_iff :
    (v : Bool) (row : ObjectBrief) (o : Option ℕ) (f : Finding)
    → (drift_of v row o ≡ some f) ↔ ((d : Drift) × (f ≡ found row d) × Drifts v row o d)
drift_of_iff v row none f = (λ e. (dangling, ground arith, refl), λ w. go w.0 w.1 w.2)
  where
    go : (d : Drift) → f ≡ found row d → Drifts v row none d → some (found row dangling) ≡ some f
    go dangling e w = ap some (sym e)
    go (size_mismatch db s3) e w = cc (w.1)
drift_of_iff v row (some s3) f = (
  λ e. elim (Bool-cases (v && not (s3 == row.file_size))) [
    | inl t ↦ (
      size_mismatch row.file_size s3,
      some-injective (sym (rw t at e)),
      (ground arith, refl, refl, λ q. ground arith),
    )
    | inr n ↦ cc (rw n at e)
  ],
  λ w. go w.0 w.1 w.2,
)
  where
    go :
        (d : Drift) → f ≡ found row d → Drifts v row (some s3) d → drift_of v row (some s3) ≡ some f
    go dangling e w = cc
    go (size_mismatch db s) e w =
        let same : s3 ≡ s = ground (arith, w.1) in
        let t : (v && not (s3 == row.file_size)) ≡ true =
          ground (arith, w.0, w.3, same, ==_iff s3 row.file_size) in
        rw t (
          ap some (
            ap (λ x. found row (size_mismatch row.file_size x)) same
            ∙ ap (λ x. found row (size_mismatch x s)) (sym w.2)
            ∙ sym e))

-- A row is a finding exactly when nothing is in flight on it, it is as old as the grace, and it has
-- no blob or, where sizes are verified, a blob of another size; the finding carries the row's
-- `created_at`.
pub classify_row_iff :
    (blobs : List Blob) (in_flight : State) (grace now : ℕ) (verify_sizes : Bool)
    (row : ObjectBrief) (f : Finding)
    → (classify_row blobs in_flight grace now verify_sizes row ≡ some f) ↔ (
        (contains in_flight row.store_path_hash ≡ false)
        × (row.created_at + grace ≤ now)
        × (d : Drift) × (f ≡ found row d)
        × Drifts verify_sizes row (s3_size row.store_path_hash blobs) d)
unfolding classify_row
classify_row_iff blobs in_flight grace now v row f =
    let inner = drift_of_iff v row (s3_size row.store_path_hash blobs) f in
    elim (Bool-cases (guarded in_flight grace now row)) [
      | inl t ↦ (λ e. cc (rw t at e), λ w. absurd (ground (arith, w.0, w.1)))
      | inr n ↦ (
        λ e. let why = inner.0 (rw n at e) in (ground arith, ground arith, why.0, why.1, why.2),
        λ w. rw n (inner.1 (w.2, w.3, w.4)),
      )
    ]
