-- ===== src/Gtid.antt =====
-- internal/replication/gtidset.go: intervals of transaction numbers, GTID sets and recovery.
pub mod Interval
pub mod Sets
pub mod Parse
pub mod Print
pub mod Recovery
mod Tests
