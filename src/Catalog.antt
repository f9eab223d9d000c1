-- ===== src/Catalog.antt =====
-- crates/ukiel-catalog: the PostgreSQL catalog. `Db` is its tables; every method is a transaction
-- on them.
pub mod Error
pub mod Db
pub mod Tx
pub mod Offsets
pub mod Leases
pub mod Parts
pub mod Feed
pub mod Cursors
pub mod Pipelines
pub mod Gc
pub mod Reads
pub mod Windows
pub mod Invariant
pub mod Commit
