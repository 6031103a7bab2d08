-- ===== src/Web.antt =====
-- The web sites of internal/domain/web.
pub mod Bans
