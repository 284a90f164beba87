-- ===== src/Session.antt =====
-- The sessions of the orchestrator (src/agf_orchestrator/session_models.py, session_manager.py).
pub mod Models
pub mod Manager
