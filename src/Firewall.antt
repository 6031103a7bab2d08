-- ===== src/Firewall.antt =====
-- internal/domain/firewall: who may reach which port.
pub mod PortAcl
