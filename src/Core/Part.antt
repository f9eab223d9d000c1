-- ===== src/Core/Part.antt =====
-- crates/ukiel-core/src/part.rs, ids.rs, and the shape of `column_stats` that stats.rs writes.
-- An id (`i64`, drawn from an identity column that starts at 1) is a natural number; an `i64` that
-- may be negative is a `ℤ`. A `jsonb` partition value is its canonical text, which is what the
-- sweep orders and compares by.
use ukiel.Base.{ℕ, String, List, Option}
use ukiel.Base.Int.{ℤ}

-- The `column_stats` object: one `{min, max}` entry for each Int64 column, the base64 of the key
-- bitmap under `packing_keys`, and the row groups' spans under `key_row_groups`. The last two are
-- inserted over what stands under their names, so a reader of the object finds them there first.
pub record ColumnStats : Type 0 where
  pub columns : List (String × (ℤ × ℤ))
  pub packing_keys : Option String
  pub key_row_groups : Option (List (ℤ × ℤ))

pub record PartMeta : Type 0 where
  pub path : String
  pub partition_values : String
  pub packing_key_min : ℤ
  pub packing_key_max : ℤ
  pub row_count : ℕ
  pub size_bytes : ℕ
  pub level : ℕ
  pub column_stats : Option ColumnStats

pub record ColumnRange : Type 0 where
  pub column : String
  pub min : Option ℤ
  pub max : Option ℤ

pub record Part : Type 0 where
  pub id : ℕ
  pub hypertable_id : ℕ
  pub meta : PartMeta
  pub created_by_commit : ℕ
