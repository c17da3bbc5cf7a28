-- ===== src/Core.antt =====
-- core/vl_core.c: the fingerprint, vl_verify, and the queries on their results.
pub mod Fingerprint
pub mod Verify
pub mod Messages
pub mod Query
