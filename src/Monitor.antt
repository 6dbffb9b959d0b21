-- ===== src/Monitor.antt =====
-- `Engine.Run` of internal/controller/monitor/engine.go: the state machine that confirms the death of
-- the primary.
pub mod Engine
pub mod Unnoticed
pub mod Justified
pub mod Detects
mod Tests
