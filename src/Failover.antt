-- ===== src/Failover.antt =====
-- internal/controller/failover: planning a failover and executing the plan.
pub mod Readiness
pub mod Permission
pub mod Plan
pub mod Build
pub mod Actions
pub mod Verify
pub mod Executor
pub mod Guarantee
pub mod Leased
pub mod Runs
pub mod Fenced
pub mod Tests
