-- ===== src/Ingestion.antt =====
-- services/ingestion: what the hosted service observes of a record and signs.
pub mod Receipts
pub mod Origin
mod Tests
