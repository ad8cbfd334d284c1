-- ===== src/Fsck/Repairs.antt =====
-- `apply_repair` and `run` of crates/garret-pusher/src/fsck.rs, with other tasks running in between.
use garret.Common.{
  some-injective, ℕ, ◌≡◌, refl, sym, ap, ◌∙◌, Bool, false, ◌&&◌, Option, none, some, List, [], ◌∷◌,
  arith, if◌then◌else◌, Text, text_eq, text_eq→≡, any, inl, inr, Bool-cases, Option-cases,
}
use garret.InFlight.{quiesce, drop_guard}
use garret.Db.Schema.{Row, Database, find, without}
use garret.Db.Objects.{map_option, created_at, delete_object, file_size, remove_row, debit}
use garret.Db.Rows.{find-without_ne, find-without_self}
use garret.Db.WellFormed.{IsWellFormed, delete_object-IsWellFormed}
use garret.Gc.{Shared}
use garret.Fsck.{quiesced, Finding, same_time, repair_row, Environment, wait, apply_repair, run}

-- The finding is of this row, as it stands now.
abbrev pub names_row : Text → Option ℕ → Finding → Bool
names_row h at f = text_eq f.hash h && same_time at f.listed_at

abbrev pub at_of : Option Row → Option ℕ
at_of o = map_option (λ r. r.created_at) o

find-delete_object :
    (db : Database) (k h : Text)
    → find h (delete_object db k).1.objects ≡ (if text_eq k h then none else find h db.objects)
unfolding delete_object file_size remove_row debit
find-delete_object db k h = elim (Option-cases (find k db.objects)) [
  | inl n ↦ elim (Bool-cases (text_eq k h)) [
    | inr f ↦ rw (n, delete_object, file_size, f)
    | inl t ↦
        rw (n, delete_object, file_size, t)
          (ap (λ x. find x db.objects) (sym (text_eq→≡ k h t)) ∙ n)
  ]
  | inr (r, e) ↦ elim (Bool-cases (text_eq k h)) [
    | inr f ↦ rw (e, delete_object, file_size, f) (find-without_ne k h db.objects f)
    | inl t ↦
        rw (e, delete_object, file_size, t)
          (ap (λ x. find x (without k db.objects)) (sym (text_eq→≡ k h t))
            ∙ find-without_self k db.objects)
  ]
]

repair_row-find :
    (db : Database) (f : Finding) (h : Text)
    → find h (repair_row db f).1.objects
      ≡ (if names_row h (at_of (find h db.objects)) f then none else find h db.objects)
unfolding repair_row created_at
repair_row-find db f h = elim (Bool-cases (text_eq f.hash h)) [
  | inr n ↦ elim (Bool-cases (same_time (at_of (find f.hash db.objects)) f.listed_at)) [
    | inl t ↦
        rw (n, t)
          (find-delete_object db f.hash h ∙ ap (λ b. if b then none else find h db.objects) n)
    | inr u ↦ rw (n, u)
  ]
  | inl t ↦
      let same = text_eq→≡ f.hash h t in
      let moved : same_time (at_of (find f.hash db.objects)) f.listed_at
          ≡ same_time (at_of (find h db.objects)) f.listed_at =
        ap (λ k. same_time (at_of (find k db.objects)) f.listed_at) same in
      elim (Bool-cases (same_time (at_of (find h db.objects)) f.listed_at)) [
        | inl v ↦
            rw (t, moved, v)
              (find-delete_object db f.hash h ∙ ap (λ b. if b then none else find h db.objects) t)
        | inr v ↦ rw (t, moved, v)
      ]
]

never :
    (h : Text) (fs : List Finding) {A : Type 0} (o : Option A)
    → o ≡ none
    → (if any (names_row h none) fs then none else o) ≡ none
never h fs o e = ground arith

repair_row-IsWellFormed :
    (db : Database) (f : Finding) → IsWellFormed db → IsWellFormed (repair_row db f).1
unfolding repair_row
repair_row-IsWellFormed db f w = elim (Bool-cases (same_time (created_at db f.hash) f.listed_at)) [
  | inl t ↦ rw t (delete_object-IsWellFormed db f.hash w)
  | inr n ↦ rw n w
]

module _ (env : Environment) where
  -- While other tasks leave a path alone, a repair deletes its row exactly when a finding names it
  -- with the row's own `created_at`: a row that was written since the listing stays.
  pub apply_repair-find :
      (h : Text)
      → ((n : ℕ) (t : Shared) → find h (env.others n t).db.objects ≡ find h t.db.objects)
      → (s : Shared) (findings : List Finding)
      → find h (apply_repair env s findings).1.db.objects ≡ (
          if any (names_row h (at_of (find h s.db.objects))) findings
          then none
          else find h s.db.objects)
  unfolding apply_repair
  apply_repair-find h alone s [] = refl
  apply_repair-find h alone s (f ∷ fs) =
      let t = wait env s in
      let u : Shared = record t { db = (repair_row t.db f).1 } in
      let rest = apply_repair-find h alone u fs in
      let kept = alone s.waits s in
      let step : find h u.db.objects
          ≡ (if names_row h (at_of (find h s.db.objects)) f then none else find h s.db.objects) =
        repair_row-find t.db f h
        ∙ ap (λ (o : Option Row). if names_row h (at_of o) f then none else o) kept in
      elim (Bool-cases (names_row h (at_of (find h s.db.objects)) f)) [
        | inl yes_named ↦
            let gone : find h u.db.objects ≡ none =
              step ∙ ap (λ b. if b then none else find h s.db.objects) yes_named in
            rw yes_named (
              rest
              ∙ ap (λ (o : Option Row). if any (names_row h (at_of o)) fs then none else o) gone
              ∙ never h fs none refl)
        | inr other ↦
            let stays : find h u.db.objects ≡ find h s.db.objects =
              step ∙ ap (λ b. if b then none else find h s.db.objects) other in
            rw other (
              rest
              ∙ ap (λ (o : Option Row). if any (names_row h (at_of o)) fs then none else o) stays)
      ]

  -- Repairs keep the tables well formed if the other tasks do.
  pub apply_repair-IsWellFormed :
      ((n : ℕ) (t : Shared) → IsWellFormed t.db → IsWellFormed (env.others n t).db)
      → (s : Shared) (findings : List Finding) → IsWellFormed s.db
      → IsWellFormed (apply_repair env s findings).1.db
  unfolding apply_repair
  apply_repair-IsWellFormed keeps s [] w = w
  apply_repair-IsWellFormed keeps s (f ∷ fs) w =
      let t = wait env s in
      apply_repair-IsWellFormed keeps (record t { db = (repair_row t.db f).1 }) fs
        (repair_row-IsWellFormed t.db f (keeps s.waits s w))

  -- A quiesced run whose drain timed out repairs nothing: what is in the database afterwards is what
  -- the other tasks left there over its three waits, and the guard that it took is dropped.
  pub run-timed_out :
      (grace : ℕ) (verify_sizes : Bool) (s : Shared)
      → (run env grace verify_sizes quiesced s).0.quiesce_drained ≡ some false
      → let waited =
          wait env (wait env (wait env (record s { in_flight = quiesce s.in_flight }))) in
        ((run env grace verify_sizes quiesced s).0.repaired ≡ 0)
        × ((run env grace verify_sizes quiesced s).1
            ≡ record waited { in_flight = drop_guard waited.in_flight })
  unfolding run
  run-timed_out grace verify_sizes s e =
      let drained_not = some-injective e in rw (drained_not) (refl, refl)
