-- ===== src/Middleware.antt =====
-- internal/middleware.
pub mod RateLimit
