-- ===== src/Risk.antt =====
-- Risk: signals, assessments and the engine that aggregates them (src/agf_orchestrator/risk_*.py).
pub mod Models
pub mod Engine
