-- ===== src/Resource.antt =====
-- src/resource_protocol.rs and the claims of src/execution_topology.rs: reservations of resources
-- and rate limits, granted against an index of what is occupied.
pub mod Maps
pub mod Records
pub mod Texts
pub mod Findings
pub mod Occupancy
pub mod Grants
pub mod Exclusion
pub mod Ledger
