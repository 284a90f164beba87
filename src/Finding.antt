-- ===== src/Finding.antt =====
-- Causal findings (src/agf_orchestrator/causal_findings.py): reproduced defects, each recorded once and closed
-- once.
pub mod Models
pub mod Store
