-- ===== src/Roadmap.antt =====
-- The roadmap: items with dependencies, and their lifecycle (src/agf_orchestrator/roadmap_models.py).
pub mod Models
pub mod Acyclic
pub mod Lifecycle
pub mod Valid
pub mod Eligible
pub mod Change
pub mod Transition
pub mod Settled
pub mod Reach
