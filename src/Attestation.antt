-- ===== src/Attestation.antt =====
-- services/attestation: the lifecycle of issued attestations.
pub mod Store
pub mod Lifecycle
mod Tests
