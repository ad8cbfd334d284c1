-- ===== src/Db/Schema.antt =====
-- crates/garret-server/src/db.rs: the schema. Sizes and times are `i64` columns that the program
-- never sets below zero; the usage counter is an integer. SQLite orders and compares text bytewise,
-- and a reference's generated `reference_hash` is its first 32 characters, which are bytes since
-- base names are ASCII.
use garret.Common.{
  ℕ, ◌+◌, Bool, not, Option, none, some, List, [], ◌∷◌, if◌then◌else◌, Text, text_eq, take, filter,
  is_some,
}
use garret.Common.Int.{ℤ, pos}

pub record Object : Type 0 where
  pub store_path_hash : Text
  pub store_path : Text
  pub name : Text
  pub nar_hash : Text
  pub nar_size : ℕ
  pub file_hash : Text
  pub file_size : ℕ
  pub deriver : Option Text
  pub ca : Option Text
  pub references : List Text
  pub sigs : List Text
  pub pushed_by : Option Text

-- A row of `objects`. The column `sigs` is JSON of the list that stands here.
pub record Row : Type 0 where
  pub store_path_hash : Text
  pub store_path : Text
  pub name : Text
  pub nar_hash : Text
  pub nar_size : ℕ
  pub file_hash : Text
  pub file_size : ℕ
  pub deriver : Option Text
  pub ca : Option Text
  pub sigs : List Text
  pub pushed_by : Option Text
  pub created_at : ℕ
  pub last_accessed_at : ℕ
  pub pushed_at : ℕ

-- A row of `object_refs`.
pub record Ref : Type 0 where
  pub referrer : Text
  pub reference : Text

-- The generated column `reference_hash`.
abbrev pub reference_hash : Ref → Text
reference_hash r = take 32 r.reference

-- A row of `pins`; no expiry means for good.
pub record PinRow : Type 0 where
  pub name : Text
  pub store_path_hash : Text
  pub expires_at : Option ℕ
  pub created_at : ℕ

pub record Database : Type 0 where
  pub objects : List Row
  pub object_refs : List Ref
  pub pins : List PinRow
  pub total_bytes : ℤ

-- A database just migrated.
abbrev pub empty : Database
empty = record { objects = []; object_refs = []; pins = []; total_bytes = pos 0 }

pub record ObjectBrief : Type 0 where
  pub store_path_hash : Text
  pub name : Text
  pub created_at : ℕ
  pub file_size : ℕ

-- `ObjectBrief::from_row`.
abbrev pub brief : Row → ObjectBrief
brief r = record {
  store_path_hash = r.store_path_hash;
  name = r.name;
  created_at = r.created_at;
  file_size = r.file_size;
}

-- The row with a key; `store_path_hash` is the primary key.
unfoldable pub find : Text → List Row → Option Row
find h [] = none
find h (r ∷ rows) = if text_eq r.store_path_hash h then some r else find h rows

abbrev pub has : Database → Text → Bool
has db h = is_some (find h db.objects)

-- `DELETE FROM objects WHERE store_path_hash = ?1`, and the two cascades.
unfoldable pub without : Text → List Row → List Row
without h = filter (λ r. not (text_eq r.store_path_hash h))

unfoldable pub refs_without : Text → List Ref → List Ref
refs_without h = filter (λ r. not (text_eq r.referrer h))

unfoldable pub pins_without : Text → List PinRow → List PinRow
pins_without h = filter (λ p. not (text_eq p.store_path_hash h))

-- `SUM(file_size)`.
abbrev pub sum_sizes : List Row → ℕ
sum_sizes [] = 0
sum_sizes (r ∷ rows) = r.file_size + sum_sizes rows

-- `ORDER BY`: insertion sort by a strict order, stable.
module _ {ℓ} {A : Type ℓ} (before : A → A → Bool) where
  unfoldable pub insert_by : A → List A → List A
  insert_by a [] = a ∷ []
  insert_by a (b ∷ bs) = if before b a then b ∷ insert_by a bs else a ∷ b ∷ bs

  unfoldable pub sort_by : List A → List A
  unfolding insert_by
  sort_by [] = []
  sort_by (a ∷ rest) = insert_by a (sort_by rest)
