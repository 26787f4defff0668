-- ===== src/Computation/Coverage.antt =====
-- services/computation/coverage.py: the coverage report of one window.
pub mod Errors
pub mod Intervals
pub mod Inputs
pub mod Validation
pub mod Facts
pub mod Numerator
pub mod Report
mod Tests
