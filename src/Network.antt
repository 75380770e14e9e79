-- ===== src/Network.antt =====
-- src/sandbox/hyperv/network.rs: the gateway that the administrator declares, the guest's address
-- from its pool, the firewall's rules and the plan that holds them.
pub mod Platform
pub mod Gateway
pub mod Lease
pub mod Firewall
pub mod Plan
pub mod Tests
