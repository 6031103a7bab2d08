-- ===== src/Infra/Task.antt =====
-- internal/infra/task/manager.go: background tasks and their logs.
pub mod Log
pub mod Manager
