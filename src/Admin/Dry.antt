-- ===== src/Admin/Dry.antt =====
-- crates/garret-pusher/src/admin.rs: what a dry run of `delete` reports, against the run.
use garret.Common.{
  mem, ℕ, ◌≡◌, refl, sym, ap, ◌∙◌, Bool, true, false, Option, none, some, List, [], ◌∷◌, arith,
  Text, text_eq, text_eq_sym, inl, inr, Bool-cases, Option-cases, some-injective,
}
use garret.Common.Result.{Result, ok, err, ok-injective}
use garret.InFlight.{State}
use garret.Db.Schema.{Row, Database, find}
use garret.Db.Objects.{file_size, delete_object, remove_row, map_option}
use garret.Db.Rows.{find-without_ne}
use garret.Deletion.{Deletion, BusyPath}
use garret.Gc.{Shared, Environment, wait}
use garret.Admin.{
  Work, Deleted, unseen, delete, delete_each, delete_one, delete_claimed, counted, reported,
}

-- A delete leaves the other rows.
pub find-delete_object :
    (db : Database) (h j : Text)
    → text_eq h j ≡ false
    → find j (delete_object db h).1.objects ≡ find j db.objects
unfolding delete_object file_size remove_row
find-delete_object db h j ne = elim (Option-cases (find h db.objects)) [
  | inl e ↦ rw (e, delete_object, file_size) refl
  | inr (r, e) ↦ rw (e, delete_object, file_size) (find-without_ne h j db.objects ne)
]

delete_object-size : (db : Database) (h : Text) → (delete_object db h).0 ≡ file_size db h
unfolding delete_object file_size
delete_object-size db h = elim (Option-cases (find h db.objects)) [
  | inl e ↦ rw (e, delete_object, file_size) refl
  | inr (r, e) ↦ rw (e, delete_object, file_size) refl
]

-- Nothing else runs.
abbrev pub Alone : Environment → Type 0
Alone env = (n : ℕ) (s : Shared) → env.others n s ≡ s

counted-done :
    (dry : Bool) (h : Text) (w w' : Work) (freed freed' : Option ℕ)
    → freed ≡ freed'
    → w.done ≡ w'.done
    → (counted true h w freed).done ≡ (counted false h w' freed').done
counted-done dry h w w' none none e d = rw d refl
counted-done dry h w w' none (some f) e d = cc
counted-done dry h w w' (some f) none e d = cc
counted-done dry h w w' (some f) (some g) e d = rw (some-injective e, d) refl

pub counted-shared :
    (dry : Bool) (h : Text) (w : Work) (freed : Option ℕ)
    → (counted dry h w freed).shared ≡ w.shared
counted-shared dry h w none = refl
counted-shared dry h w (some f) = refl

size_same :
    (h : Text) (db db' : Database)
    → find h db.objects ≡ find h db'.objects
    → file_size db h ≡ file_size db' h
unfolding file_size
size_same h db db' e = ap (map_option (λ (r : Row). r.file_size)) e

module _ (env : Environment) (alone : Alone env) where
  pub waited : (s : Shared) → (wait env s).db ≡ s.db
  waited s = ap (λ (t : Shared). t.db) (alone s.waits s)

  dry_db : (h : Text) (w : Work) → (delete_one env true h w).shared.db ≡ w.shared.db
  dry_db h w =
      ap (λ (s : Shared). s.db)
        (counted-shared true h
          (record w { shared = record (wait env w.shared) { db = (wait env w.shared).db } })
          (file_size (wait env w.shared).db h))
      ∙ waited w.shared

  pub run_db :
      (h : Text) (w : Work) → (delete_one env false h w).shared.db ≡ (delete_object w.shared.db h).1
  run_db h w =
      ap (λ (s : Shared). s.db)
        (counted-shared false h
          (record w {
            shared = record (wait env w.shared) { db = (delete_object (wait env w.shared).db h).1 };
          })
          (delete_object (wait env w.shared).db h).0)
      ∙ ap (λ db. (delete_object db h).1) (waited w.shared)

  each_same :
      (seen hs : List Text) (w w' : Work)
      → ((h : Text) → mem h seen ≡ false → find h w.shared.db.objects ≡ find h w'.shared.db.objects)
      → w.done ≡ w'.done
      → (delete_each env true (unseen seen hs) w).done
        ≡ (delete_each env false (unseen seen hs) w').done
  unfolding delete_each unseen
  each_same seen [] w w' same d = d
  each_same seen (h ∷ hs) w w' same d = elim (Bool-cases (mem h seen)) [
    | inl t ↦ rw t (each_same seen hs w w' same d)
    | inr f ↦ rw f (
        each_same (h ∷ seen) hs (delete_one env true h w) (delete_one env false h w')
          (λ j m.
            ap (λ (db : Database). find j db.objects) (dry_db h w)
            ∙ same j (ground (arith, m))
            ∙ sym (find-delete_object w'.shared.db h j (ground (arith, m, text_eq_sym j h)))
            ∙ sym (ap (λ (db : Database). find j db.objects) (run_db h w')))
          (counted-done true h _ _ _ _
            (size_same h (wait env w.shared).db (wait env w'.shared).db (
                ap (λ (db : Database). find h db.objects) (waited w.shared)
                ∙ same h f
                ∙ sym (ap (λ (db : Database). find h db.objects) (waited w'.shared)))
              ∙ sym (delete_object-size (wait env w'.shared).db h))
            d))
  ]

  reported_ok : {A : Type 0} {a b : A} (r : Bool × Shared) → (reported a r).0 ≡ ok b → a ≡ b
  reported_ok (true, s) e = ok-injective e
  reported_ok (false, s) e = cc

  claimed_ok :
      (hashes : List Text) (s : Shared) (r : State × Result Deletion BusyPath) {d : Deleted}
      → (delete_claimed env hashes s r).0 ≡ ok d
      → (w : Work) × (w.shared.db ≡ s.db)
        × (w.done ≡ record { deleted = 0; bytes_freed = 0; missing = [] })
        × ((delete_each env false hashes w).done ≡ d)
  claimed_ok hashes s (t, err x) e = cc
  claimed_ok hashes s (t, ok held) e = (_, refl, refl, reported_ok _ e)

  dry_same : (hs : List Text) (w : Work) → (delete_each env true hs w).shared.db ≡ w.shared.db
  unfolding delete_each
  dry_same [] w = refl
  dry_same (h ∷ hs) w = dry_same hs (delete_one env true h w) ∙ dry_db h w

  -- While nothing else runs, a dry run reports what the run then does: the same count, the same
  -- bytes and the same paths that are missing. The dry run itself deletes no row.
  pub delete-dry_run :
      (s : Shared) (hashes : List Text) {d : Deleted}
      → (delete env s hashes false).0 ≡ ok d
      → ((delete env s hashes true).0 ≡ ok d) × ((delete env s hashes true).1.db ≡ s.db)
  unfolding delete
  delete-dry_run s hashes {d} e =
      let (w, db, begun, result) = claimed_ok (unseen [] hashes) s _ {d = d} e in
      (
        ap ok (
            each_same [] hashes _ w (λ h m. sym (ap (λ (db : Database). find h db.objects) db))
              (sym begun)
            ∙ result),
        dry_same (unseen [] hashes) _,
      )
