-- ===== src/Config.antt =====
-- internal/config: the configuration of the proxy.
pub mod Validator
mod Tests
