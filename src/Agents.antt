-- ===== src/Agents.antt =====
-- internal/server/api/handlers/agent.go: the connections of agents.
pub mod State
pub mod Pending
pub mod Connect
pub mod Hosts
pub mod Answers
pub mod Inbound
pub mod Tokens
pub mod Staging
