-- ===== src/Domain.antt =====
-- internal/domain/types.go: the cluster's configuration, the discovered view and the plans.
-- A string type with named constants is a data type with those constants; `unset` is "".
-- Times are numbers, 0 the zero time. Durations, ports and counts of type int are integers.
pub mod Spec
pub mod View
pub mod Plan
pub mod Run
pub mod Switchover
pub mod Inspection
pub mod Examples
