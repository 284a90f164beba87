-- ===== src/Merge.antt =====
-- The merge gate: evidence, decisions and the policy engine (src/agf_orchestrator/merge_*.py).
pub mod Models
pub mod Policy
