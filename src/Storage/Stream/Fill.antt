-- ===== src/Storage/Stream/Fill.antt =====
-- crates/garret-server/src/storage.rs: what `BodyReader` takes off the body.
use garret.Common.{
  append_nil, append_assoc, ℕ, ◌-◌, ◌≤◌, ◌≡◌, ◌⊎◌, refl, sym, ap, subst, ◌∙◌, Bool, true, false,
  Option, none, some, List, [], ◌∷◌, ◌++◌, arith, Text, length, length-append, length-take, take,
  drop, take-append-drop, ltb, inl, inr, Bool-cases, Option-cases,
}
use garret.Common.Result.{ok, err, ok-injective}
use garret.Storage.Stream.{Item, Reader, fill_body, fill, more_in, has_more}

-- The bytes of a body up to its end or its error.
abbrev pub bytes : List Item → Text
bytes [] = []
bytes (err e ∷ body) = []
bytes (ok chunk ∷ body) = chunk ++ bytes body

-- It has no error.
abbrev pub is_clean : List Item → Bool
is_clean [] = true
is_clean (err e ∷ body) = false
is_clean (ok chunk ∷ body) = is_clean body

abbrev pub carried : Option Text → Text
carried none = []
carried (some left) = left

abbrev pub unread : Reader → Text
unread r = carried r.carry ++ bytes r.body

-- What filling a part did: the bytes it got are off the body and in the hash, and the part is full
-- or the body at its end.
pub record Filled (cap : ℕ) (part taken before : Text) (clean : Bool) (part' : Text) (r : Reader)
    : Type 0 where
  pub got : Text
  pub into : part' ≡ part ++ got
  pub hashed : r.taken ≡ taken ++ got
  pub kept : got ++ unread r ≡ before
  pub fits : length part' ≤ cap
  pub ends : (length part' ≡ cap) ⊎ ((r.body ≡ []) × (r.carry ≡ none))
  pub same : is_clean r.body ≡ clean

nothing_got :
    (cap : ℕ) (part taken : Text) (body : List Item)
    → length part ≤ cap
    → (length part ≡ cap) ⊎ (body ≡ [])
    → Filled cap part taken
        (bytes body)
        (is_clean body)
        part
        (record { body = body; carry = none; taken = taken })
nothing_got cap part taken body b e = record {
  got = [];
  into = sym (append_nil part);
  hashed = sym (append_nil taken);
  kept = refl;
  fits = b;
  ends = elim e [ inl l ↦ inl l | inr n ↦ inr (n, refl) ];
  same = refl;
}

split_got :
    (cap : ℕ) (part taken chunk : Text) (body : List Item)
    → length part ≤ cap
    → cap - length part ≤ length chunk
    → Filled cap part taken
        (chunk ++ bytes body)
        (is_clean body)
        (part ++ take (cap - length part) chunk)
        (record {
          body = body;
          carry = some (drop (cap - length part) chunk);
          taken = taken ++ take (cap - length part) chunk;
        })
split_got cap part taken chunk body b c =
    let room = cap - length part in
    let full : length (part ++ take room chunk) ≡ cap =
      omega (arith, length-append part (take room chunk), length-take room chunk) in
    record {
      got = take room chunk;
      into = refl;
      hashed = refl;
      kept =
          sym (append_assoc (take room chunk) (drop room chunk) (bytes body))
          ∙ ap (λ t. t ++ bytes body) (take-append-drop room chunk);
      fits = omega (arith, full);
      ends = inl full;
      same = refl;
    }

more_got :
    (cap : ℕ) (part taken chunk before : Text) (clean : Bool) (part' : Text) (r : Reader)
    → Filled cap (part ++ chunk) (taken ++ chunk) before clean part' r
    → Filled cap part taken (chunk ++ before) clean part' r
more_got cap part taken chunk before clean part' r f = record {
  got = chunk ++ f.got;
  into = f.into ∙ append_assoc part chunk f.got;
  hashed = f.hashed ∙ append_assoc taken chunk f.got;
  kept = append_assoc chunk f.got (unread r) ∙ ap (λ t. chunk ++ t) f.kept;
  fits = f.fits;
  ends = f.ends;
  same = f.same;
}

abbrev FilledAs : ℕ → Text → Text → Text → Bool → Text × Reader → Type 0
FilledAs cap part taken before clean p = Filled cap part taken before clean p.0 p.1

pub fill_body-Filled :
    (cap : ℕ) (part taken : Text) (body : List Item) {p : Text × Reader}
    → length part ≤ cap
    → fill_body cap part taken body ≡ ok p
    → Filled cap part taken (bytes body) (is_clean body) p.0 p.1
unfolding fill_body
fill_body-Filled cap part taken [] b e =
    subst (FilledAs cap part taken [] true) (ok-injective e)
      (nothing_got cap part taken [] b (inr refl))
fill_body-Filled cap part taken (err x ∷ body) b e = elim (Bool-cases (ltb (length part) cap)) [
  | inl t ↦ cc (rw t at e)
  | inr f ↦
      subst (FilledAs cap part taken [] false) (ok-injective (rw f at e))
        (nothing_got cap part taken (err x ∷ body) b (inl (ground (arith, f, b))))
]
fill_body-Filled cap part taken (ok chunk ∷ body) {p} b e =
    elim (Bool-cases (ltb (length part) cap)) [
      | inr f ↦
          subst (FilledAs cap part taken (chunk ++ bytes body) (is_clean body))
            (ok-injective (rw f at e))
            (nothing_got cap part taken (ok chunk ∷ body) b (inl (ground (arith, f, b))))
      | inl t ↦ elim (Bool-cases (ltb (cap - length part) (length chunk))) [
        | inl over ↦
            subst (FilledAs cap part taken (chunk ++ bytes body) (is_clean body))
              (ok-injective (rw (t, over) at e))
              (split_got cap part taken chunk body b (ground (arith, over)))
        | inr fits ↦ more_got cap part taken chunk (bytes body) (is_clean body) p.0 p.1 (
            fill_body-Filled cap (part ++ chunk) (taken ++ chunk) body {p = p}
              (ground (arith, length-append part chunk, fits, t)) (rw (t, fits) at e))
      ]
    ]

-- `fill` takes the next bytes of the body, in order, and none besides.
pub fill-Filled :
    (cap : ℕ) (part : Text) (r : Reader) {p : Text × Reader}
    → length part ≤ cap
    → fill cap part r ≡ ok p
    → Filled cap part r.taken (unread r) (is_clean r.body) p.0 p.1
unfolding fill
fill-Filled cap part r {p} b e = elim (Option-cases r.carry) [
  | inl n ↦ rw n (fill_body-Filled cap part r.taken r.body {p = p} b (rw n at e))
  | inr (left, n) ↦
      rw n (fill_body-Filled cap part r.taken (ok left ∷ r.body) {p = p} b (rw n at e))
]

abbrev Spent : Text → List Item → Bool × Reader → Type 0
Spent taken body (true, r) = Unit
Spent taken body (false, r) =
    (bytes body ≡ [])
    × (is_clean body ≡ true)
    × (r.taken ≡ taken)
    × (r.carry ≡ none)
    × (r.body ≡ [])

empty_skipped :
    (taken : Text) (body : List Item) (p : Bool × Reader)
    → Spent taken body p
    → Spent taken (ok [] ∷ body) p
empty_skipped taken body (true, r) s = tt
empty_skipped taken body (false, r) s = s

more_in-Spent :
    (taken : Text) (body : List Item) {p : Bool × Reader}
    → more_in taken body ≡ ok p
    → Spent taken body p
unfolding more_in
more_in-Spent taken [] e = subst (Spent taken []) (ok-injective e) (refl, refl, refl, refl, refl)
more_in-Spent taken (err x ∷ body) e = cc
more_in-Spent taken (ok [] ∷ body) {p} e =
    empty_skipped taken body p (more_in-Spent taken body {p = p} e)
more_in-Spent taken (ok (c ∷ chunk) ∷ body) e =
    subst (Spent taken (ok (c ∷ chunk) ∷ body)) (ok-injective e) tt

-- A body of which `has_more` says that it holds no byte is at its end.
pub has_more-Spent :
    (r r' : Reader)
    → has_more r ≡ ok (false, r')
    → (unread r ≡ [])
      × (is_clean r.body ≡ true)
      × (r'.taken ≡ r.taken)
      × (r'.carry ≡ none)
      × (r'.body ≡ [])
unfolding has_more
has_more-Spent r r' e = elim (Option-cases r.carry) [
  | inl n ↦ rw n (more_in-Spent r.taken r.body {p = (false, r')} (rw n at e))
  | inr (left, n) ↦ rw n (more_in-Spent r.taken (ok left ∷ r.body) {p = (false, r')} (rw n at e))
]
