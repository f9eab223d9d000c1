-- ===== src/Catalog/Error.antt =====
-- crates/ukiel-catalog/src/error.rs: the failures of the catalog and what each means.
use Prim.Native.String.{String}
use text.Mathlib.Text.{starts_with}
use ukiel.Base.{ℕ, Bool, true, false, ◌||◌, Option, none, some, ◌==◌, string_eq, if◌then◌else◌}
use ukiel.Core.Commit.{OperationIdentity}

pub data CatalogErrorClass : Type 0 where
  semantic_conflict ownership_violation permanent_input absent_resource : CatalogErrorClass
  transport retryable_database permanent_database : CatalogErrorClass

unfoldable pub as_label : CatalogErrorClass → String
as_label semantic_conflict = "semantic_conflict"
as_label ownership_violation = "ownership_violation"
as_label permanent_input = "permanent_input"
as_label absent_resource = "absent_resource"
as_label transport = "transport"
as_label retryable_database = "retryable_database"
as_label permanent_database = "permanent_database"

unfoldable pub class_for_sqlstate : String → CatalogErrorClass
class_for_sqlstate code =
    if code == "40001" || (code == "40P01" || code == "55P03")
    then retryable_database
    else if code == "57P01" || (code == "57P02" || (code == "57P03" || code == "53300"))
    then transport
    else if starts_with code "08"
    then transport
    else permanent_database

-- The driver's errors (`sqlx::Error`), as far as the catalog tells them apart. `database` carries
-- the SQLSTATE, if there is one.
pub data DbError : Type 0 where
  io pool_timed_out protocol pool_closed other : DbError
  database : Option String → DbError

unfoldable pub class_for_db_error : DbError → CatalogErrorClass
unfolding class_for_sqlstate
class_for_db_error io = transport
class_for_db_error pool_timed_out = transport
class_for_db_error protocol = transport
class_for_db_error pool_closed = permanent_database
class_for_db_error (database none) = permanent_database
class_for_db_error (database (some code)) = class_for_sqlstate code
class_for_db_error other = permanent_database

-- `sqlx::migrate::MigrateError`: the two variants that wrap a driver error, and the rest.
pub data MigrateError : Type 0 where
  execute execute_migration : DbError → MigrateError
  other_migration : MigrateError

-- Messages are texts of the source that nothing reads; the fields that code reads are kept.
pub data CatalogError : Type 0 where
  invalid_pipeline invariant : String → CatalogError
  conflict : (expected live_matched : ℕ) → CatalogError
  lease_lost lease_partition_mismatch : (partition : String) → CatalogError
  invalid_lease_ttl invalid_lock_timeout not_found : String → CatalogError
  operation_key_collision : (key : String) → CatalogError
  operation_hypertable_mismatch : (identity mutation : ℕ) → CatalogError
  ambiguous_mutation : OperationIdentity → (key : String) → DbError → CatalogError
  unidentified_ambiguous_mutation : DbError → CatalogError
  offset_race : (topic : String) (partition : ℕ) → CatalogError
  schema sort_key : String → CatalogError
  db : DbError → CatalogError
  migrate : MigrateError → CatalogError

unfoldable pub class : CatalogError → CatalogErrorClass
unfolding class_for_db_error
class (conflict _ _) = semantic_conflict
class (lease_lost _) = ownership_violation
class (offset_race _ _) = ownership_violation
class (schema _) = permanent_input
class (sort_key _) = permanent_input
class (lease_partition_mismatch _) = permanent_input
class (invalid_lease_ttl _) = permanent_input
class (invalid_lock_timeout _) = permanent_input
class (invalid_pipeline _) = permanent_input
class (operation_key_collision _) = permanent_input
class (operation_hypertable_mismatch _ _) = permanent_input
class (ambiguous_mutation _ _ _) = transport
class (unidentified_ambiguous_mutation _) = permanent_database
class (not_found _) = absent_resource
class (invariant _) = permanent_database
class (migrate (execute e)) = class_for_db_error e
class (migrate (execute_migration e)) = class_for_db_error e
class (migrate other_migration) = permanent_database
class (db e) = class_for_db_error e

abbrev pub recoverable_class : CatalogErrorClass → Bool
recoverable_class transport = true
recoverable_class retryable_database = true
recoverable_class _ = false

unfoldable pub is_recoverable_transport : CatalogError → Bool
unfolding class
is_recoverable_transport e = recoverable_class (class e)

abbrev pub is_transport : CatalogErrorClass → Bool
is_transport transport = true
is_transport _ = false
