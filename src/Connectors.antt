-- ===== src/Connectors.antt =====
-- services/connectors/base.py: what a destination's connector declares, and what is accepted of it.
pub mod Capabilities
pub mod Enumeration
pub mod Usable
mod Tests
