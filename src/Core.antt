-- ===== src/Core.antt =====
-- crates/ukiel-core: the shared types and the pure rules on them.
pub mod Part
pub mod Commit
pub mod Keyfilter
pub mod Table
pub mod Canonical
pub mod Intent
pub mod Operation
