-- ===== src/Switchover.antt =====
-- internal/controller/switchover: planning a switchover and executing the plan.
pub mod Plan
pub mod Build
pub mod Lossless
pub mod Executor
pub mod Rounds
pub mod Order
pub mod Leased
pub mod Locked
pub mod Verify
pub mod Verified
pub mod Closed
mod Tests
