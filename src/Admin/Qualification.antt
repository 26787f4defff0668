-- ===== src/Admin/Qualification.antt =====
-- services/admin/qualification.py: the denominator classes, and the class in force for a window.
-- An instant is a number of microseconds; the history holds the rows as the query returned them.
pub mod Classes
pub mod Resolution
pub mod Governing
pub mod InForce
pub mod Claims
unfoldable pub use Classes.*
unfoldable pub use Resolution.*
