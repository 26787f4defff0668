-- ===== src/Evidence.antt =====
-- sdk_python/evidence: the records, their chains and their revocation.
pub mod Schema
pub mod Origin
pub mod Signing
pub mod Chain
pub mod Instants
pub mod Revocation
pub mod Samples
mod Tests
