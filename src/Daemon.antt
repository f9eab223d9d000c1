-- ===== src/Daemon.antt =====
-- crates/ukield: the daemon that runs the roles of one process and keeps their health.
pub mod Health
pub mod Recovery
pub mod Supervisor
mod Examples
