-- ===== src/Middleware.antt =====
-- The middleware of internal/httpx/middleware that keeps state.
pub mod RateLimit
