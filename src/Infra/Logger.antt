-- ===== src/Infra/Logger.antt =====
-- internal/infra/logger: the guard against floods of log lines.
pub mod Flood
