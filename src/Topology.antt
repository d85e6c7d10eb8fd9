-- ===== src/Topology.antt =====
-- core/services/topology_service.py
pub mod Intervals
pub mod Addresses
pub mod Entries
pub mod Scores
pub mod Effective
pub mod Locate
pub mod Flows
pub mod Examples
