-- ===== src/Audit.antt =====
-- The audit stream: src/audit.rs.
pub mod Disk
pub mod Sink
pub mod Record
pub mod Auditor
