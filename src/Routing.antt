-- ===== src/Routing.antt =====
-- The choice of the upstream for AI traffic: app/xray/ai_routing and app/state/ai_routing.py.
pub mod Endpoints
pub mod Candidates
pub mod Selector
pub mod Domains
pub mod Manager
pub mod Manual
