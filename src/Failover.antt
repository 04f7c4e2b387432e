-- ===== src/Failover.antt =====
-- internal/server/failover/manager.go: the failover manager.
pub mod State
pub mod Events
pub mod Tasks
pub mod Timers
pub mod Candidate
pub mod Switchover
pub mod Attempt
pub mod Failback
pub mod Maintenance
pub mod Topology
pub mod Log
