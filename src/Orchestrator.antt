-- ===== src/Orchestrator.antt =====
-- internal/orchestrator/orchestrator.go: the tools that an agent's session may call.
pub mod Decimal
pub mod Token
pub mod Spawn
