-- ===== src/Scheduler/Commands/Lifecycle.antt =====
-- What a command does to the stored scheduler.
use agf_orchestrator.Base.{
  ◌≡◌, refl, sym, ap, ◌∙◌, true, false, Option, none, some, arith, Bool-cases, inl, inr, ◌⊎◌,
}
use agf_orchestrator.Base.Raise.{
  Result, Error, ok, raise, ok-injective, Result-cases, scheduler_command_error,
}
use agf_orchestrator.Scheduler.Models.{
  SchedulerState, SchedulerStatus, status_is, transitions, move,
}
use agf_orchestrator.Scheduler.Models.Lifecycle.{transition_iff}
use agf_orchestrator.Scheduler.Store.{
  File, document, Disk, load, transition_loaded, transition_stored, save_unlocked,
}
use agf_orchestrator.Scheduler.Store.Laws.{transition_stored-eq-raise, load-eq-ok}
use agf_orchestrator.Scheduler.Commands.{
  SchedulerCommand, start, pause, resume, cancel, SchedulerCommandResult, target, allowed_command,
  read_result, command_result, as_command_error, execute_loaded, execute,
}

-- Every pair that `_allowed_command` admits is an edge of the lifecycle.
allowed_command-transitions :
    (command : SchedulerCommand) (from to : SchedulerStatus)
    → target command ≡ some to
    → allowed_command command from ≡ true
    → transitions from to ≡ true
allowed_command-transitions start from to h a = ground arith
allowed_command-transitions pause from to h a = ground arith
allowed_command-transitions resume from to h a = ground arith
allowed_command-transitions cancel from to h a = ground arith
allowed_command-transitions _ from to h a = ground arith

-- A command that changes the status is not admitted from the status that it asks for.
allowed_command-status :
    (command : SchedulerCommand) (from to : SchedulerStatus)
    → target command ≡ some to
    → allowed_command command from ≡ true
    → status_is from to ≡ false
allowed_command-status start from to h a = ground arith
allowed_command-status pause from to h a = ground arith
allowed_command-status resume from to h a = ground arith
allowed_command-status cancel from to h a = ground arith
allowed_command-status _ from to h a = ground arith

pub transition_stored_moves :
    (file : File) (s : SchedulerState) (to : SchedulerStatus)
    → load file ≡ ok s
    → transitions s.status to ≡ true
    → status_is s.status to ≡ false
    → transition_stored none file to ≡ (ok (move s to), document (move s to))
unfolding transition_stored
transition_stored_moves file s to loaded edge other =
    let (held, valid) = load-eq-ok file s loaded in
    let moved = (transition_iff s (move s to) to).1 (valid, edge, refl) in
    rw (loaded, transition_loaded, other, moved, save_unlocked) refl

-- A command that `_allowed_command` admits from the stored status, with no other writer and a disk that
-- takes the write, moves the scheduler to its target: the lifecycle never refuses it.
pub execute_allowed :
    (file : File) (command : SchedulerCommand) (s : SchedulerState) (to : SchedulerStatus)
    → load file ≡ ok s
    → target command ≡ some to
    → allowed_command command s.status ≡ true
    → execute none file file command
      ≡ (ok (command_result command (move s to) true), document (move s to))
unfolding execute
execute_allowed file command s to loaded asked allowed =
    let other = allowed_command-status command s.status to asked allowed in
    let edge = allowed_command-transitions command s.status to asked allowed in
    let stored = transition_stored_moves file s to loaded edge other in
    rw (loaded, execute, asked, execute_loaded, other, allowed, stored) refl

as_command_error-raise {ℓ} :
    {A : Type ℓ} (e : Error) → (e' : Error) × (as_command_error {A = A} (raise e) ≡ raise e')
as_command_error-raise (Error.scheduler_store_error m) = (scheduler_command_error m, refl)
as_command_error-raise e = (_, refl)

execute_loaded-eq-raise :
    (disk : Disk) (file file' : File) (command : SchedulerCommand) (s : SchedulerState)
    (aim : Option SchedulerStatus) (e : Error)
    → execute_loaded disk file command s aim ≡ (raise e, file')
    → file' ≡ file
unfolding execute_loaded
execute_loaded-eq-raise disk file file' command s none e h = absurd (cc)
execute_loaded-eq-raise disk file file' command s (some to) e h =
    elim (Bool-cases (status_is s.status to)) [
      | inl same ↦ let h' = rw (same, execute_loaded) at h in absurd (cc)
      | inr other ↦ elim (Bool-cases (allowed_command command s.status)) [
        | inr refused ↦ let h' = rw (other, execute_loaded, refused) at h in cc
        | inl allowed ↦
            let h' = rw (other, execute_loaded, allowed) at h in
            elim (Result-cases (transition_stored disk file to).0) [
              | inl (t, moved) ↦ let h'' = rw moved at h' in absurd (cc)
              | inr (e', failed) ↦
                  let left : (transition_stored disk file to).1 ≡ file' = ap (λ w. w.1) h' in
                  transition_stored-eq-raise disk file file' to e' (λ i. (failed i, left i))
            ]
      ]
    ]

report_unchanged :
    (a r : SchedulerCommandResult) (s : SchedulerState) (file file' : File)
    → a.changed ≡ false
    → a.state ≡ s
    → ◌≡◌ {A = Result SchedulerCommandResult × File} (ok a, file) (ok r, file')
    → (r.changed ≡ false) × (r.state ≡ s) × (file' ≡ file)
report_unchanged a r s file file' still same h =
    let e = ok-injective a r (ap (λ w. w.0) h) in
    (
      sym (ap (λ (w : SchedulerCommandResult). w.changed) e) ∙ still,
      sym (ap (λ (w : SchedulerCommandResult). w.state) e) ∙ same,
      sym (ap (λ w. w.1) h),
    )

execute_loaded-eq-ok :
    (disk : Disk) (file file' : File) (command : SchedulerCommand) (s : SchedulerState)
    (r : SchedulerCommandResult) (aim : Option SchedulerStatus)
    → execute_loaded disk file command s aim ≡ (ok r, file')
    → ((r.changed ≡ false) × (r.state ≡ s) × (file' ≡ file))
      ⊎ ((r.changed ≡ true)
          × (allowed_command command s.status ≡ true)
          × ((to : SchedulerStatus) × (aim ≡ some to)
              × (transition_stored disk file to ≡ (ok r.state, file'))))
unfolding execute_loaded
execute_loaded-eq-ok disk file file' command s r none h =
    inl (report_unchanged (read_result command s) r s file file' refl refl h)
execute_loaded-eq-ok disk file file' command s r (some to) h =
    elim (Bool-cases (status_is s.status to)) [
      | inl same ↦
          let h' = rw (same, execute_loaded) at h in
          inl (report_unchanged (command_result command s false) r s file file' refl refl h')
      | inr other ↦ elim (Bool-cases (allowed_command command s.status)) [
        | inr refused ↦ let h' = rw (other, execute_loaded, refused) at h in absurd (cc)
        | inl allowed ↦
            let h' = rw (other, execute_loaded, allowed) at h in
            elim (Result-cases (transition_stored disk file to).0) [
              | inl (t, moved) ↦
                  let h'' = rw moved at h' in
                  let e = ok-injective (command_result command t true) r (ap (λ w. w.0) h'') in
                  let reported = ap (λ (w : SchedulerCommandResult). w.state) e in
                  let left : (transition_stored disk file to).1 ≡ file' = ap (λ w. w.1) h' in
                  inr (
                    sym (ap (λ (w : SchedulerCommandResult). w.changed) e),
                    allowed,
                    (to, refl, λ i. ((moved ∙ ap ok reported) i, left i)),
                  )
              | inr (e', failed) ↦
                  let (e'', wrapped) = as_command_error-raise {A = SchedulerState} e' in
                  let h'' = rw (failed, wrapped) at h' in absurd (cc)
            ]
      ]
    ]

-- A command that fails leaves the file as it was, also if another process wrote between its two locks.
pub execute-eq-raise :
    (disk : Disk) (before file file' : File) (command : SchedulerCommand) (e : Error)
    → execute disk before file command ≡ (raise e, file')
    → file' ≡ file
unfolding execute
execute-eq-raise disk before file file' command e h = elim (Result-cases (load before)) [
  | inr (e', failed) ↦
      let (e'', wrapped) = as_command_error-raise {A = SchedulerState} e' in
      let h' = rw (failed, execute, wrapped) at h in cc
  | inl (s, loaded) ↦
      execute_loaded-eq-raise disk file file' command s (target command) e
        (rw (loaded, execute) at h)
]

-- What a command that returns has done: it changed nothing and reports the state that it loaded, or it was
-- admitted for that state and then moved the state that it found under its second lock.
pub execute-eq-ok :
    (disk : Disk) (before file file' : File) (command : SchedulerCommand)
    (r : SchedulerCommandResult)
    → execute disk before file command ≡ (ok r, file')
    → (s : SchedulerState) × (load before ≡ ok s)
      × (((r.changed ≡ false) × (r.state ≡ s) × (file' ≡ file))
          ⊎ ((r.changed ≡ true)
              × (allowed_command command s.status ≡ true)
              × ((to : SchedulerStatus) × (target command ≡ some to)
                  × (transition_stored disk file to ≡ (ok r.state, file')))))
unfolding execute
execute-eq-ok disk before file file' command r h = elim (Result-cases (load before)) [
  | inr (e, failed) ↦
      let (e', wrapped) = as_command_error-raise {A = SchedulerState} e in
      let h' = rw (failed, execute, wrapped) at h in absurd (cc)
  | inl (s, loaded) ↦ (
    s,
    loaded,
    execute_loaded-eq-ok disk file file' command s r (target command) (rw (loaded, execute) at h),
  )
]
