-- ===== src/Balancer.antt =====
-- internal/balancer: the load balancers over a shared pool of servers.
pub mod Pool
pub mod Indices
pub mod Ring
pub mod RoundRobin
pub mod LeastConnections
pub mod WeightedRoundRobin
pub mod SmoothWeighted
pub mod IpHash
pub mod Sessions
pub mod Sticky
pub mod IpSticky
mod SessionTests
mod Tests
