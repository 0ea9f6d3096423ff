-- ===== src/Failover.antt =====
-- app/state/dns_failover.py and app/dns_failover.py: the DNS failover of the normal data plane.
pub mod Peak
pub mod Config
pub mod State
pub mod Transition
pub mod Service
