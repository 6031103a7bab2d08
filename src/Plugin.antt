-- ===== src/Plugin.antt =====
-- The parts of internal/plugin that keep state.
pub mod EventBus
pub mod Delivery
pub mod Supervisor
