-- ===== src/State.antt =====
-- internal/state/memory.go: the run store and the lease manager that keep their state in memory.
-- The mutexes make each operation atomic, so a state and a function stand for each.
pub mod Assoc
pub mod Store
pub mod Leases
mod Tests
