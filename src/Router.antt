-- ===== src/Router.antt =====
-- internal/router: which route answers a request.
pub mod HostRouter
pub mod Candidates
pub mod Members
pub mod Routing
pub mod Operations
pub mod Loading
pub mod Matching
pub mod Specificity
pub mod Matcher
pub mod Precedence
pub mod Reloading
mod Tests
