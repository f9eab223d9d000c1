-- ===== src/Ingest.antt =====
-- crates/ukiel-ingest: from Kafka to the catalog.
pub mod Assignment
pub mod Buffers
pub mod Ranges
pub mod Flush
mod Examples
