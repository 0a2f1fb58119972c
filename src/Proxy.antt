-- ===== src/Proxy.antt =====
-- internal/proxy: what the proxy does to a request before it is sent on.
pub mod Rewriter
pub mod Tests
