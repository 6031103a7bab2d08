-- ===== src/Infra.antt =====
-- The parts of internal/infra that keep state.
pub mod Task
pub mod Logger
pub mod Config
