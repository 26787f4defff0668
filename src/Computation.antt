-- ===== src/Computation.antt =====
-- services/computation: reconciliation, coverage and oversight, as values computed from records.
pub mod Reconciliation
pub mod Coverage
pub mod Oversight
mod Tests
