-- ===== src/Core/Table/Examples.antt =====
-- A test of table.rs.
use ukiel.Base.{◌≡◌, refl, some}
use ukiel.Base.Int.{pos}
use ukiel.Core.Table.{from_db, to_db}

column_kept : to_db (from_db (some (pos 4096))) ≡ some (pos 4096)
unfolding to_db from_db
column_kept = refl
