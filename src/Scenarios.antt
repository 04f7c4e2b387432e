-- ===== src/Scenarios.antt =====
-- Concrete clusters, agents and plans on which the theorems of the library are applied.
pub mod Failovers
pub mod Agents
pub mod Syncs
pub mod Alerts
pub mod Connections
pub mod Crons
pub mod Backups
pub mod Tokens
pub mod Transfers
