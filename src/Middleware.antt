-- ===== src/Middleware.antt =====
-- internal/middleware: what stands between a request and the proxy.
pub mod TokenBucket
pub mod RateLimit
pub mod Runes
pub mod Backoff
pub mod Retry
pub mod Cors
pub mod Chain
pub mod Basic
pub mod Headers
mod Tests
