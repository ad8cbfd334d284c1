-- ===== src/Db/Prune/Tests.antt =====
-- Prune of crates/garret-server/src/db.rs on `app`, which refers to `lib` and to itself, and on
-- `tool`, which is pinned.
use garret.Common.{
  mem, ℕ, ◌<◌, ◌≡◌, ◌↔◌, refl, true, false, none, List, [], ◌∷◌, Text, codes, text_eq, text_lt,
  arith, All, take, ap, sym, ◌∙◌, Bool-cases, inl, inr, ◌&&◌, ◌||◌, text_eq→≡, text_eq_sym,
  if◌then◌else◌,
}
use garret.Common.Int.{pos}
use garret.Common.Result.{ok}
use garret.Db.Schema.{Row, Ref, Database, ObjectBrief, brief, find, has, reference_hash, sort_by}
use garret.Db.WellFormed.{IsWellFormed}
use garret.Db.Prune.{
  prunable, batches, delete_batches, delete_pruned, keep, mark, union, add, named_before,
  referrers_first, references, inside, index, order_of, kahn, release, credit, count, ready_from,
  chunks, pick,
}
use garret.Db.Prune.Mark.{keep_iff}
use garret.Db.Prune.Marking.{Kept, links}
use garret.Db.Prune.Place.{gone}
use garret.Db.Prune.Closed.{batches-closed, delete_pruned-acyclic}
use garret.Db.Prune.Front.{prunable_iff}

abbrev hash_of : ℕ → Text
hash_of c = c ∷ codes "bcdfghijklmnpqrsvwxyz0123456789"

abbrev row : ℕ → ℕ → Row
row c size = record {
  store_path_hash = hash_of c;
  store_path = [];
  name = c ∷ [];
  nar_hash = [];
  nar_size = 0;
  file_hash = [];
  file_size = size;
  deriver = none;
  ca = none;
  sigs = [];
  pushed_by = none;
  created_at = 7;
  last_accessed_at = 7;
  pushed_at = 7;
}

abbrev ref : ℕ → ℕ → Ref
ref g h = record { referrer = hash_of g; reference = hash_of h }

abbrev cache : Database
cache = record {
  objects = row b'l' 30 ∷ row b'a' 12 ∷ row b't' 5 ∷ [];
  object_refs = ref b'a' b'l' ∷ ref b'a' b'a' ∷ [];
  pins =
      record {
        name = codes "keep";
        store_path_hash = hash_of b't';
        expires_at = none;
        created_at = 7;
      }
      ∷ [];
  total_bytes = pos 47;
}

cache-IsWellFormed : IsWellFormed cache
unfolding find text_eq
cache-IsWellFormed = record {
  unique = (refl, (refl, (refl, tt)));
  refs_owned = (refl, (refl, tt));
  pins_owned = (refl, tt);
  counted = refl;
}

abbrev doomed : List ObjectBrief
doomed = brief (row b'a' 12) ∷ brief (row b'l' 30) ∷ []

listing : prunable cache 10 90000 ≡ ok doomed
unfolding prunable keep mark union add text_eq sort_by named_before text_lt
listing = refl

split : batches cache doomed ≡ ok (doomed ∷ [])
unfolding batches referrers_first references inside index order_of kahn release credit count
    ready_from chunks pick text_eq
split = refl

keep_iff_example :
    (mem (hash_of b't') (keep cache 10 90000) ≡ true) ↔ Kept cache 10 90000 (hash_of b't')
keep_iff_example = keep_iff cache 10 90000 cache-IsWellFormed.unique (hash_of b't')

prunable_iff_example :
    (gone (hash_of b'l') doomed ≡ true)
    ↔ ((has cache (hash_of b'l') ≡ true) × ¬ Kept cache 10 90000 (hash_of b'l'))
prunable_iff_example =
    prunable_iff cache 10 90000 {doomed = doomed} (hash_of b'l') cache-IsWellFormed.unique listing

batches-closed_example :
    IsWellFormed (delete_batches (take 1 (doomed ∷ [])) cache)
    × All
        (λ (r : Ref).
          find (reference_hash r) (delete_batches (take 1 (doomed ∷ [])) cache).objects
          ≡ find (reference_hash r) cache.objects)
        (delete_batches (take 1 (doomed ∷ [])) cache).object_refs
batches-closed_example =
    batches-closed cache 10 90000 cache-IsWellFormed {doomed = doomed} listing {split = doomed ∷ []}
      1 split

-- A path that starts with `a` comes before the others.
abbrev rank : Text → ℕ
rank h = if text_eq h (hash_of b'a') then 0 else 1

-- The only link to another is from `a`.
from_a :
    (a l g h : Text)
    → (text_eq a g && text_eq h l) || ((text_eq a g && text_eq h a) || false) ≡ true
    → text_eq g h ≡ false
    → (text_eq g a ≡ true) × (text_eq h a ≡ false)
from_a a l g h e n = elim (Bool-cases (text_eq h a)) [
  | inr f ↦ (ground (arith, e, text_eq_sym g a), f)
  | inl t ↦
      let first : text_eq a g ≡ true = ground (arith, e) in
      let same : text_eq g h ≡ true =
        ap (λ x. text_eq x h) (sym (text_eq→≡ a g first)) ∙ text_eq_sym a h ∙ t in
      cc (same, n)
]

ranked : (g h : Text) → links cache.object_refs g h ≡ true → text_eq g h ≡ false → rank g < rank h
ranked g h l n =
    let (first, other) = from_a (hash_of b'a') (hash_of b'l') g h l n in
    rw (first, other) (omega arith)

delete_pruned-acyclic_example : (after : Database) × (delete_pruned cache doomed ≡ ok after)
delete_pruned-acyclic_example =
    delete_pruned-acyclic cache 10 90000 cache-IsWellFormed {doomed = doomed} listing rank ranked
