-- ===== src/Panel/ProxyChain.antt =====
-- The proxy chain service of panel/internal/proxychain/service.go: chains of nodes that are planned,
-- deployed in order with a rollback, disabled and probed.
pub mod World
pub mod Plan
pub mod Deploy
pub mod Probe
pub mod Effective
pub mod Order
pub mod Agents
pub mod Rollout
pub mod Progress
pub mod Undo
pub mod Failed
pub mod Stored
pub mod Atomic
pub mod Diagnosis
mod Tests
