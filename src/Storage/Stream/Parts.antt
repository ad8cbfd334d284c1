-- ===== src/Storage/Stream/Parts.antt =====
-- crates/garret-server/src/storage.rs: the parts of a multipart upload, in whatever order they finish_reader.
use garret.Common.{
  append_assoc, append_nil, ℕ, zero, suc, ◌+◌, ◌≤◌, ◌<◌, ◌≡◌, refl, sym, ap, subst, ◌∙◌, true, List,
  [], ◌∷◌, ◌++◌, arith, Text, All, All-append, length, length-append, leb, inl, inr, Bool-cases,
}
use garret.Common.Result.{ok, ok-injective, >>=-eq-ok}
use garret.Db.Schema.{insert_by}
use garret.Storage.Stream.{Part, Multipart, S3, remove_at, joined_part, collect, make_room, spawn}
use garret.Storage.Stream.Sort.{
  insert, sort, numbered, insert_later, numbered-sort, sort-middle, numbered-append,
}

abbrev Removed : Part → List Part → Part × List Part → Type 0
Removed p ps r =
    (front : List Part) × (back : List Part) × (p ∷ ps ≡ front ++ r.0 ∷ back)
    × (r.1 ≡ front ++ back)

remove_at-Removed : (i : ℕ) (p : Part) (ps : List Part) → Removed p ps (remove_at i p ps)
remove_at-Removed i p [] = ([], [], refl, refl)
remove_at-Removed zero p (q ∷ qs) = ([], q ∷ qs, refl, refl)
remove_at-Removed (suc i) p (q ∷ qs) =
    let (front, back, whole, rest) = remove_at-Removed i q qs in
    (p ∷ front, back, ap (λ r. p ∷ r) whole, ap (λ r. p ∷ r) rest)

-- The parts sent so far, sorted, are this list, and no two have one number; S3 took those completed.
pub record IsSent (s3 : S3) (m : Multipart) (parts : List Part) : Type 0 where
  pub sorted : sort (m.completed ++ m.in_flight) ≡ parts
  pub once : (n : ℕ) → numbered n parts ≤ 1
  pub uploaded : All (λ p. s3.upload_part p ≡ true) m.completed

-- A part in flight moves behind those completed: the parts sent stay the same.
joined-sorted :
    (s3 : S3) (m : Multipart) (q : Part) (front back parts : List Part)
    → m.in_flight ≡ front ++ q ∷ back
    → IsSent s3 m parts
    → sort ((m.completed ++ q ∷ []) ++ (front ++ back)) ≡ parts
joined-sorted s3 m q front back parts e w =
    let sent : sort ((m.completed ++ front) ++ q ∷ back) ≡ parts =
      ap sort (append_assoc m.completed front (q ∷ back))
      ∙ ap (λ l. sort (m.completed ++ l)) (sym e)
      ∙ w.sorted in
    let one : numbered q.number ((m.completed ++ front) ++ q ∷ back) ≤ 1 = omega (
      arith,
      numbered-sort q.number ((m.completed ++ front) ++ q ∷ back),
      ap (numbered q.number) sent,
      w.once q.number,
    ) in
    let none_before : numbered q.number (m.completed ++ front) ≡ 0 =
      ground (arith, one, numbered-append q.number (m.completed ++ front) (q ∷ back)) in
    let none_completed : numbered q.number m.completed ≡ 0 =
      omega (arith, none_before, numbered-append q.number m.completed front) in
    ap sort (append_assoc m.completed (q ∷ []) (front ++ back))
    ∙ sort-middle q m.completed (front ++ back) none_completed
    ∙ ap (λ l. insert q (sort l)) (sym (append_assoc m.completed front back))
    ∙ sym (sort-middle q (m.completed ++ front) back none_before)
    ∙ sent

joined_part-IsSent :
    (s3 : S3) (m : Multipart) (p : Part) (ps parts : List Part) (r : Part × List Part)
    {m' : Multipart}
    → m.in_flight ≡ p ∷ ps
    → IsSent s3 m parts
    → Removed p ps r
    → joined_part s3 m r ≡ ok m'
    → IsSent s3 m' parts × (suc (length m'.in_flight) ≡ length (p ∷ ps))
joined_part-IsSent s3 m p ps parts (q, rest) {m'} e w (front, back, whole, others) r =
    elim (Bool-cases (s3.upload_part q)) [
      | inr f ↦ cc (rw f at r)
      | inl t ↦
          subst (λ n. IsSent s3 n parts × (suc (length n.in_flight) ≡ length (p ∷ ps)))
            (ok-injective (rw t at r))
            (
              record {
                sorted =
                    ap (λ l. sort ((m.completed ++ q ∷ []) ++ l)) others
                    ∙ joined-sorted s3 m q front back parts (e ∙ whole) w;
                once = w.once;
                uploaded =
                    All-append (λ p. s3.upload_part p ≡ true) m.completed (q ∷ []) w.uploaded
                      (t, tt);
              },
              omega (
                arith,
                ap length others,
                ap length whole,
                length-append front back,
                length-append front (q ∷ back),
              ),
            )
    ]

collect-IsSent :
    (s3 : S3) (m : Multipart) (ps parts : List Part) {m' : Multipart}
    → m.in_flight ≡ ps
    → IsSent s3 m parts
    → collect s3 m ps ≡ ok m'
    → IsSent s3 m' parts × (suc (length m'.in_flight) ≡ length ps)
unfolding collect
collect-IsSent s3 m [] parts e w r = cc
collect-IsSent s3 m (p ∷ ps) parts {m'} e w r =
    joined_part-IsSent s3 m p ps parts (remove_at (s3.next_finished m.joins) p ps) {m' = m'} e w
      (remove_at-Removed (s3.next_finished m.joins) p ps) r

pub make_room-IsSent :
    (s3 : S3) (fuel limit : ℕ) (m : Multipart) (parts : List Part) {m' : Multipart}
    → IsSent s3 m parts
    → make_room s3 fuel limit m ≡ ok m'
    → IsSent s3 m' parts
unfolding make_room
make_room-IsSent s3 zero limit m parts w e = cc
make_room-IsSent s3 (suc fuel) limit m parts {m'} w e =
    elim (Bool-cases (leb limit (length m.in_flight))) [
      | inr f ↦ subst (λ n. IsSent s3 n parts) (ok-injective (rw f at e)) w
      | inl t ↦
          let (n, first, rest) =
            >>=-eq-ok (collect s3 m m.in_flight) (make_room s3 fuel limit) (rw t at e) in
          make_room-IsSent s3 fuel limit n parts {m' = m'}
            (collect-IsSent s3 m m.in_flight parts {m' = n} refl w first).0 rest
    ]

-- The room that was asked for is there.
pub make_room-lt :
    (s3 : S3) (fuel limit : ℕ) (m : Multipart) (parts : List Part) {m' : Multipart}
    → IsSent s3 m parts
    → length m.in_flight < fuel
    → make_room s3 fuel limit m ≡ ok m'
    → length m'.in_flight < limit
unfolding make_room
make_room-lt s3 zero limit m parts w b e = absurd (omega (arith, b))
make_room-lt s3 (suc fuel) limit m parts {m'} w b e =
    elim (Bool-cases (leb limit (length m.in_flight))) [
      | inr f ↦
          subst (λ (n : Multipart). length n.in_flight < limit) (ok-injective (rw f at e))
            (ground (arith, f))
      | inl t ↦
          let (n, first, rest) =
            >>=-eq-ok (collect s3 m m.in_flight) (make_room s3 fuel limit) (rw t at e) in
          let (sent, fewer) = collect-IsSent s3 m m.in_flight parts {m' = n} refl w first in
          make_room-lt s3 fuel limit n parts {m' = m'} sent (omega (arith, fewer, b)) rest
    ]

-- The numbers run from a first one, without a gap.
abbrev pub IsNumbered : ℕ → List Part → Type 0
IsNumbered n [] = Unit
IsNumbered n (p ∷ ps) = (p.number ≡ n) × IsNumbered (suc n) ps

pub IsNumbered-append :
    (n : ℕ) (ps : List Part) (p : Part)
    → IsNumbered n ps
    → p.number ≡ n + length ps
    → IsNumbered n (ps ++ p ∷ [])
IsNumbered-append n [] p i e = (omega (arith, e), tt)
IsNumbered-append n (q ∷ ps) p i e = (i.0, IsNumbered-append (suc n) ps p i.1 (omega (arith, e)))

numbered_out : (k n : ℕ) (ps : List Part) → IsNumbered n ps → n + length ps ≤ k → numbered k ps ≡ 0
numbered_out k n [] i b = refl
numbered_out k n (p ∷ ps) i b = ground (arith, i.0, b, numbered_out k (suc n) ps i.1)

insert_last :
    (p : Part) (n : ℕ) (ps : List Part)
    → IsNumbered n ps
    → n + length ps ≤ p.number
    → insert p ps ≡ ps ++ p ∷ []
unfolding insert_by
insert_last p n [] i b = refl
insert_last p n (q ∷ ps) i b =
    insert_later p q ps (ground (arith, i.0, b))
    ∙ ap (λ r. q ∷ r) (insert_last p (suc n) ps i.1 (omega (arith, b)))

numbered_before : (k n : ℕ) (ps : List Part) → IsNumbered n ps → k < n → numbered k ps ≡ 0
numbered_before k n [] i b = refl
numbered_before k n (p ∷ ps) i b =
    ground (arith, i.0, b, numbered_before k (suc n) ps i.1 (omega (arith, b)))

pub numbered_once : (k n : ℕ) (ps : List Part) → IsNumbered n ps → numbered k ps ≤ 1
numbered_once k n [] i = omega arith
numbered_once k n (p ∷ ps) i =
    ground (arith, i.0, numbered_once k (suc n) ps i.1, numbered_before k (suc n) ps i.1)

-- The next part joins the list at its end.
pub spawn-IsSent :
    (s3 : S3) (m : Multipart) (parts : List Part) (bytes : Text)
    → IsSent s3 m parts
    → IsNumbered 1 parts
    → IsSent s3
        (spawn s3 (length parts + 1) bytes m)
        (parts ++ record { number = length parts + 1; bytes = bytes } ∷ [])
spawn-IsSent s3 m parts bytes w i =
    let new : Part = record { number = length parts + 1; bytes = bytes } in
    let all = m.completed ++ m.in_flight in
    let fresh : numbered new.number all ≡ 0 = omega (
      arith,
      numbered-sort new.number all,
      ap (numbered new.number) w.sorted,
      numbered_out new.number 1 parts i (omega arith),
    ) in
    record {
      sorted =
          ap sort (sym (append_assoc m.completed m.in_flight (new ∷ [])))
          ∙ sort-middle new all [] fresh
          ∙ ap (λ l. insert new (sort l)) (append_nil all)
          ∙ ap (insert new) w.sorted
          ∙ insert_last new 1 parts i (omega arith);
      once = λ n.
          numbered_once n 1 (parts ++ new ∷ []) (IsNumbered-append 1 parts new i (omega arith));
      uploaded = w.uploaded;
    }
