-- ===== src/Core/Table.antt =====
-- crates/ukiel-core/src/table.rs: where the data of a hypertable lives at rest, and the column that
-- it is kept in.
mod Examples
use ukiel.Base.{
  if◌then◌else◌, ◌≡◌, refl, ap, ◌≤◌, ◌<◌, ℕ, zero, suc, Bool, true, false, not, Option, none, some,
  arith, Bool-cases, inl, inr,
}
use ukiel.Base.Int.{ℤ, pos, negsuc, leℤ}

pub data Placement : Type 0 where
  packed : Placement
  separated : Placement
  size_targeted : ℤ → Placement

unfoldable pub from_db : Option ℤ → Placement
from_db none = packed
from_db (some n) = if leℤ n (pos 0) then separated else size_targeted n

unfoldable pub to_db : Placement → Option ℤ
to_db packed = none
to_db separated = some (pos 0)
to_db (size_targeted n) = some n

-- The `CHECK` of the column: `target_file_bytes IS NULL OR target_file_bytes >= 0`.
unfoldable pub storable : Option ℤ → Bool
storable none = true
storable (some n) = leℤ (pos 0) n

-- A target that the column can tell from separated files.
abbrev pub Targeted : Placement → Type 0
Targeted packed = Unit
Targeted separated = Unit
Targeted (size_targeted n) = leℤ n (pos 0) ≡ false

column_back : (column : Option ℤ) → storable column ≡ true → to_db (from_db column) ≡ column
unfolding to_db from_db storable
column_back none h = refl
column_back (some (pos zero)) h = refl
column_back (some (pos (suc n))) h = ground arith
column_back (some (negsuc n)) h = absurd (ground arith)

placement_back : (p : Placement) → Targeted p → from_db (to_db p) ≡ p
unfolding to_db from_db
placement_back packed t = refl
placement_back separated t = refl
placement_back (size_targeted n) t = rw t refl

-- A column that its check lets in is read and written back as it was, and a placement whose target
-- is positive, if it has one, is written and read back as it was.
pub placement_db_round_trip :
    (column : Option ℤ) (p : Placement)
    → storable column ≡ true
    → Targeted p
    → (to_db (from_db column) ≡ column) × (from_db (to_db p) ≡ p)
placement_db_round_trip column p h t = (column_back column h, placement_back p t)
