-- ===== src/Admin.antt =====
-- services/admin: who may act, and which denominator class governs a window.
pub mod Rbac
pub mod Qualification
mod Tests
