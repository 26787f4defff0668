-- ===== src/Computation/Reconciliation.antt =====
-- services/computation/reconciliation.py: exact-identity reconciliation of a signed population.
pub mod Indexes
pub mod Classify
pub mod Duplicates
pub mod Totality
pub mod Lookups
pub mod Matching
pub mod Exactness
unfoldable pub use Indexes.*
unfoldable pub use Classify.*
