-- ===== src/Lib.antt =====
-- mha_go is a high-availability manager for MySQL replication. It discovers the state of a cluster,
-- plans a failover when the primary is dead, or a switchover on demand, and executes the plan step
-- by step.
--
-- The parts and their files:
-- - Domain: the types of internal/domain/types.go. Domain/Inspection has what an inspection of a
--   server returns (internal/transport/sql/interfaces.go), with two tests that both controllers
--   make on it. Domain/Examples is a small cluster for tests.
-- - Config: fileSpec of internal/config/spec.go and its conversion to a cluster (Config/Parts has
--   the policies, roles and nodes, Config/Convert toDomain). Config/Valid says what a cluster of
--   the configuration is.
-- - Capability: internal/capability/set.go.
-- - Gtid: internal/replication/gtidset.go. Gtid/Interval has the operations on lists of intervals
--   (normalizeIntervals, containsIntervals, subtractIntervalSet), Gtid/Sets those on GTID sets
--   (Contains, Subtract, IsEmpty), Gtid/Parse and Gtid/Print the texts (ParseGTIDSet, String,
--   SubtractGTIDSets, ContainsGTIDSet) and Gtid/Recovery what a failover needs of them
--   (CandidateFreshnessScore, BuildRecoverySummary, BuildSalvageActions).
-- - Topology: internal/topology. Topology/Assessment has AssessReplication of assessment.go,
--   Topology/Codes the texts of its codes, and Topology/Selector the two candidate selectors of
--   interfaces.go.
-- - Effects: the interfaces of internal/state/store.go and internal/hooks/interfaces.go and of the
--   action runners, as a trace of effects which an environment answers. Effects/Log has the calls in
--   a trace with their answers, Effects/Jobs the logs of calls made one behind the other,
--   Effects/Updates what a trace writes to the run records, and Effects/Leased what it does to leases.
-- - Monitor: the state machine of internal/controller/monitor/engine.go (step, runSecondaryChecks) in
--   Monitor/Engine.
-- - Failover: internal/controller/failover. Failover/Readiness has the checks of controller.go
--   (evaluatePromoteReadiness, buildBlockingReasons), Failover/Plan the plan and its steps
--   (BuildPlan from the recovery summary to the plan, buildExecutionSteps), Failover/Build the whole
--   of BuildPlan, Failover/Actions executeStep of executor.go with the runner's calls,
--   Failover/Executor the executor (ExecutePlan), and Failover/Verify VerifyPostFailover of
--   verify.go. The other modules prove what these do.
-- - Switchover: internal/controller/switchover. Switchover/Plan has the plan and its steps
--   (candidateErrantGTID, buildSwitchoverSteps), Switchover/Build the whole of BuildPlan,
--   Switchover/Executor ExecutePlan of executor.go, and Switchover/Verify VerifyPostSwitchover of
--   verify.go.
-- - Runner: the operations of the SQL transport (internal/transport/sql) that a runner asks for, with
--   the servers' answers as a log. Runner/Switch has MySQLActionRunner of
--   internal/controller/switchover/actions.go, and Runner/Failover RepointReplicas of
--   internal/controller/failover/mysql_runner.go.
-- - Fencing: internal/fencing/coordinator.go.
-- - WriterEndpoint: internal/writerendpoint/switch.go.
-- - State: internal/state/memory.go. State/Store has MemoryStore, State/Leases LocalLeaseManager, and
--   State/Leases/Handles the handles that its callers have not yet released.
-- - Base: booleans, lists, texts, integers, sorting, results and decimal numbers.
--
-- The monitor decides that a failover is due, which uses the rest: the discovered view is assessed,
-- the selector names a candidate, the recovery summary compares GTID sets, the blocking reasons
-- decide whether the plan may be executed, the steps carry that decision, and the executor goes
-- through the steps. A switchover is planned from a view without assessment errors and goes through
-- its steps in the same way. Both controllers call a runner, which calls the fencing coordinator and
-- the writer endpoint; these are modelled on their own.
--
-- Numbers of type uint64 are natural numbers with the wrap-around written out. Texts are lists of
-- character codes. Maps are association lists with distinct keys. The printing of a number has 20
-- digits of fuel, which is enough below 2^64. Times are numbers; the times that the executors store
-- are left out, as nothing depends on them. Durations are integers in nanoseconds; the reader of
-- durations (time.ParseDuration), the inspector of servers, the discoverer and the selector of a
-- controller are parameters.
--
-- Not modelled: the command line, the transports over SQL and SSH, the agent and logging, which
-- are I/O; the decoding of configuration files; the discoverers (but for specNodeRole); the rest of
-- the action runner of the failover over MySQL, and the effects of the monitor's Run.
pub mod Base
pub mod Domain
pub mod Gtid
pub mod Topology
pub mod Effects
pub mod Config
pub mod WriterEndpoint
pub mod Fencing
pub mod Capability
pub mod State
pub mod Monitor
pub mod Failover
pub mod Switchover
pub mod Runner
