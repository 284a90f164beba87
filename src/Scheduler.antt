-- ===== src/Scheduler.antt =====
-- The scheduler: its state, lifecycle, selection of work, safety gates, loop, recovery, store,
-- commands and journal (src/agf_orchestrator/scheduler_*.py).
pub mod Models
pub mod Selection
pub mod Safety
pub mod Recovery
pub mod Loop
pub mod Store
pub mod Commands
pub mod Journal
