-- ===== src/Database.antt =====
-- The rules of internal/domain/database on the SQL that a user enters.
pub mod Statements
pub mod Gate
pub mod Literals
