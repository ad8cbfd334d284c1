-- ===== src/Admin/Removed.antt =====
-- crates/garret-pusher/src/admin.rs: what a delete has removed, and how it is counted.
use garret.Common.{
  true, mem, ℕ, ◌+◌, ◌≡◌, refl, ap, subst, ◌∙◌, Bool, false, not, ◌&&◌, ◌||◌, Option, none, some,
  List, [], ◌∷◌, ◌++◌, arith, if◌then◌else◌, Text, text_eq, text_eq→≡, text_eq_refl, text_eq_sym,
  is_some, inl, inr, Bool-cases, Option-cases,
}
use garret.Common.Result.{Result, ok, err}
use garret.InFlight.{State}
use garret.InFlight.Claims.{lookup}
use garret.Db.Schema.{Database, find, sum_sizes}
use garret.Db.Objects.{file_size, delete_object, remove_row, or_zero}
use garret.Db.Rows.{find-without_self, sum_sizes-without, size_of}
use garret.Db.WellFormed.{IsWellFormed}
use garret.Gc.{Shared}
use garret.Deletion.Claims.{IsBusy}
use garret.Admin.{
  Work, Deleted, Failure, busy, blobs_left, cannot_prune, cannot_pin, no_keys, backup_failed, no_gc,
  out_of_fuel, counted,
}
use garret.Admin.Dry.{find-delete_object}

-- The rows of `before` that a test does not name, with what their deletes freed.
pub record Removed (before after : Database) (p : Text → Bool) (d : Deleted) : Type 0 where
  pub well_formed : IsWellFormed after
  pub rows : (h : Text) → find h after.objects ≡ (if p h then none else find h before.objects)
  pub freed : sum_sizes after.objects + d.bytes_freed ≡ sum_sizes before.objects
  pub missing : (h : Text) → mem h d.missing ≡ p h && not (is_some (find h before.objects))

-- The claims on every path are what they were.
abbrev pub SameClaims : State → State → Type 0
SameClaims s t = (h : Text) → lookup h t.claims ≡ lookup h s.claims

delete_object-find_self : (db : Database) (h : Text) → find h (delete_object db h).1.objects ≡ none
unfolding delete_object file_size remove_row
delete_object-find_self db h = elim (Option-cases (find h db.objects)) [
  | inl e ↦ rw (e, delete_object, file_size) e
  | inr (r, e) ↦ rw (e, delete_object, file_size) (find-without_self h db.objects)
]

pub delete_object-freed :
    (db : Database) (h : Text)
    → IsWellFormed db
    → (sum_sizes (delete_object db h).1.objects + or_zero (delete_object db h).0
        ≡ sum_sizes db.objects)
      × (is_some (delete_object db h).0 ≡ is_some (find h db.objects))
unfolding delete_object file_size remove_row
delete_object-freed db h w = elim (Option-cases (find h db.objects)) [
  | inl e ↦ rw (e, delete_object, file_size) (omega arith, refl)
  | inr (r, e) ↦
      let size : size_of (find h db.objects) ≡ r.file_size = ap size_of e in
      rw (e, delete_object, file_size)
        (omega (arith, sum_sizes-without h db.objects w.unique, size), refl)
]

mem-append_one : (h j : Text) (xs : List Text) → mem h (xs ++ j ∷ []) ≡ mem h xs || text_eq h j
mem-append_one h j [] = ground arith
mem-append_one h j (x ∷ xs) = ground (arith, mem-append_one h j xs)

pub counted-Removed :
    (before after db : Database) (p : Text → Bool) (h : Text) (w : Work) (freed : Option ℕ)
    → p h ≡ false
    → Removed before db p w.done
    → IsWellFormed after
    → ((j : Text) → find j after.objects ≡ (if text_eq h j then none else find j db.objects))
    → sum_sizes after.objects + or_zero freed ≡ sum_sizes db.objects
    → is_some freed ≡ is_some (find h db.objects)
    → Removed before after (λ j. p j || text_eq h j) (counted false h w freed).done
counted-Removed before after db p h w none new r wf rows sum there = record {
  well_formed = wf;
  rows = λ j. rows j ∙ ground (arith, r.rows j);
  freed = omega (arith, sum, r.freed);
  missing = λ j. elim (Bool-cases (text_eq h j)) [
    | inr f ↦ mem-append_one j h w.done.missing ∙ ground (arith, r.missing j, f, text_eq_sym j h)
    | inl t ↦
        subst
          (λ k.
            mem k (w.done.missing ++ h ∷ [])
            ≡ (p k || text_eq h k) && not (is_some (find k before.objects)))
          (text_eq→≡ h j t)
          (mem-append_one h h w.done.missing
            ∙ ground (arith, r.missing h, r.rows h, new, there, text_eq_refl h))
  ];
}
counted-Removed before after db p h w (some f) new r wf rows sum there = record {
  well_formed = wf;
  rows = λ j. rows j ∙ ground (arith, r.rows j);
  freed = omega (arith, sum, r.freed);
  missing = λ j. elim (Bool-cases (text_eq h j)) [
    | inr f ↦ ground (arith, r.missing j, f)
    | inl t ↦
        subst
          (λ k.
            mem k w.done.missing ≡ (p k || text_eq h k) && not (is_some (find k before.objects)))
          (text_eq→≡ h j t) (ground (arith, r.missing h, r.rows h, new, there, text_eq_refl h))
  ];
}

pub delete_object-rows :
    (db : Database) (h j : Text)
    → find j (delete_object db h).1.objects ≡ (if text_eq h j then none else find j db.objects)
delete_object-rows db h j = elim (Bool-cases (text_eq h j)) [
  | inr f ↦ rw f (find-delete_object db h j f)
  | inl t ↦ rw t (
      subst (λ k. find k (delete_object db h).1.objects ≡ none) (text_eq→≡ h j t)
        (delete_object-find_self db h))
]

pub Removed-same :
    (before after : Database) (p q : Text → Bool) (d : Deleted)
    → ((h : Text) → p h ≡ q h)
    → Removed before after p d
    → Removed before after q d
Removed-same before after p q d e r = record {
  well_formed = r.well_formed;
  rows = λ h. r.rows h ∙ ap (λ b. if b then none else find h before.objects) (e h);
  freed = r.freed;
  missing = λ h. r.missing h ∙ ap (λ b. b && not (is_some (find h before.objects))) (e h);
}

-- What `delete` promises, by its result.
abbrev pub DeleteOutcome : Shared → List Text → Result Deleted Failure × Shared → Type 0
DeleteOutcome s hashes (ok d, t) =
    Removed s.db t.db (λ h. mem h hashes) d × SameClaims s.in_flight t.in_flight
DeleteOutcome s hashes (err (busy p), t) =
    (t.db ≡ s.db)
    × SameClaims s.in_flight t.in_flight
    × (mem p.0 hashes ≡ true)
    × IsBusy s.in_flight p
DeleteOutcome s hashes (err blobs_left, t) =
    ((d : Deleted) × Removed s.db t.db (λ h. mem h hashes) d) × SameClaims s.in_flight t.in_flight
DeleteOutcome s hashes (err (cannot_prune e), t) = ⊥
DeleteOutcome s hashes (err (cannot_pin e), t) = ⊥
DeleteOutcome s hashes (err no_keys, t) = ⊥
DeleteOutcome s hashes (err backup_failed, t) = ⊥
DeleteOutcome s hashes (err no_gc, t) = ⊥
DeleteOutcome s hashes (err out_of_fuel, t) = ⊥
