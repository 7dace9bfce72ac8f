-- ===== src/RateLimit.antt =====
-- server/middleware: rate limiting. rate_limit.go (stores, middleware) and limiter_sliding.go.
pub mod Window
pub mod Limiter
pub mod Store
pub mod Handler
mod Tests
