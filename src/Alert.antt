-- ===== src/Alert.antt =====
-- internal/domain/alert: the rules on what is monitored.
pub mod Rules
