-- ===== src/Auth.antt =====
-- internal/domain/auth: sessions, refresh tokens, logins and what guards them.
pub mod Session
pub mod Refresh
pub mod User
pub mod QrLogin
pub mod VerifyLimiter
pub mod Account
