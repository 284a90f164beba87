-- ===== src/Campaign.antt =====
-- The persistent campaign runner (src/agf_orchestrator/campaign_runner.py).
pub mod Models
pub mod World
pub mod Store
pub mod Steps
pub mod Deferred
pub mod Recovery
pub mod Runner
