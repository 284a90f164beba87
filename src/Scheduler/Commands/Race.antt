-- ===== src/Scheduler/Commands/Race.antt =====
-- A command between whose two locks another process wrote.
use agf_orchestrator.Base.{◌≡◌, refl, ap, true, false, none}
use agf_orchestrator.Base.Raise.{ok}
use agf_orchestrator.Scheduler.Models.{
  SchedulerState, SchedulerStatus, running, status_is, transitions, move,
}
use agf_orchestrator.Scheduler.Store.{File, document, load}
use agf_orchestrator.Scheduler.Commands.{
  start, allowed_command, command_result, execute_loaded, execute,
}
use agf_orchestrator.Scheduler.Commands.Lifecycle.{transition_stored_moves}

-- A START that loaded a CREATED scheduler and finds it PAUSED under its second lock resumes it, although
-- `_allowed_command` refuses START from PAUSED.
pub execute_start_resumes :
    (before file : File) (s p : SchedulerState)
    → load before ≡ ok s
    → s.status ≡ SchedulerStatus.created
    → load file ≡ ok p
    → p.status ≡ SchedulerStatus.paused
    → (execute none before file start
        ≡ (ok (command_result start (move p running) true), document (move p running)))
      × (allowed_command start p.status ≡ false)
unfolding execute
execute_start_resumes before file s p loaded fresh found paused =
    let edge : transitions p.status running ≡ true = ap (λ w. transitions w running) paused in
    let other : status_is p.status running ≡ false = ap (λ w. status_is w running) paused in
    let refused : status_is s.status running ≡ false = ap (λ w. status_is w running) fresh in
    let allowed : allowed_command start s.status ≡ true = ap (allowed_command start) fresh in
    let stored = transition_stored_moves file p running found edge other in
    (
      rw (loaded, execute, execute_loaded, refused, allowed, stored) refl,
      ap (allowed_command start) paused,
    )
