-- ===== src/Capability.antt =====
-- Capability profiles of providers, and the choice of a provider by them
-- (src/agf_orchestrator/capability_profiles.py, capability_selection.py).
pub mod Profiles
pub mod Selection
