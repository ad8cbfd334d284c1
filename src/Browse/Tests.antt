-- ===== src/Browse/Tests.antt =====
-- crates/garret-server/src/browse.rs: three rows of which two share a time, read in pages of one.
use garret.Common.{
  ℕ, suc, ◌≡◌, refl, Bool, true, none, some, [], ◌∷◌, map, Text, codes, text_eq, text_lt, length,
  arith,
}
use garret.Common.Int.{pos}
use garret.Db.Schema.{Row, Database, find, sort_by, insert_by}
use garret.Browse.{Summary, summary_from_row, list, precedes}
use garret.Browse.Paging.{whole, list-pages}
use garret.Browse.Cuts.{pages}

abbrev row : Text → ℕ → Row
row hash created = record {
  store_path_hash = hash;
  store_path = hash;
  name = [];
  nar_hash = [];
  nar_size = 0;
  file_hash = [];
  file_size = 5;
  deriver = none;
  ca = none;
  sigs = [];
  pushed_by = none;
  created_at = created;
  last_accessed_at = created;
  pushed_at = created;
}

abbrev cache : Database
cache = record {
  objects = row (codes "a") 100 ∷ row (codes "c") 101 ∷ row (codes "b") 101 ∷ [];
  object_refs = [];
  pins = [];
  total_bytes = pos 15;
}

-- Every name matches.
abbrev like : Text → Text → Bool
like pattern name = true

newest_first :
    map (λ (s : Summary). s.hash) (map summary_from_row (whole like cache none 1))
    ≡ codes "b" ∷ codes "c" ∷ codes "a" ∷ []
unfolding sort_by insert_by precedes text_lt
newest_first = refl

list-pages_example :
    pages (list like cache none 1) (suc (length (whole like cache none 1))) none
    ≡ some (map summary_from_row (whole like cache none 1))
unfolding find text_eq
list-pages_example =
    list-pages like cache none 1 (refl, (refl, (refl, tt)))
      (omega arith, (omega arith, (omega arith, tt)))
