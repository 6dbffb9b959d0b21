-- ===== src/Topology.antt =====
-- internal/topology: the assessment of a discovered view and the choice of a candidate.
pub mod Assessment
pub mod Codes
pub mod Selector
pub mod Tests
