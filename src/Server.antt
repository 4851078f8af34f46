-- ===== src/Server.antt =====
-- The verification server (server/main.py).
pub mod Database
pub mod Policy
pub mod Checks
pub mod Handlers
pub mod Run
pub mod Nonces
pub mod Replay
pub mod Freshness
pub mod Acceptance
pub mod Baselines
pub mod Enrollment
pub mod Pinning
pub mod Anchor
pub mod Registry
pub mod Scope
pub mod Hardware
pub mod Window
pub mod Interleaved
pub mod Rows
pub mod Spending
pub mod SingleUse
