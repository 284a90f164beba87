-- ===== src/Scheduler/Commands.antt =====
-- The command surface over the store (src/agf_orchestrator/scheduler_commands.py).
pub mod Lifecycle
pub mod Race
use Prim.Native.String.{◌++◌}
use agf_orchestrator.Base.{
  Bool, true, false, not, Option, none, some, List, [], ◌∷◌, String, if◌then◌else◌,
}
use agf_orchestrator.Base.Raise.{
  Error, message, Result, ok, raise, scheduler_command_error, scheduler_store_error, ◌>>=◌,
}
use agf_orchestrator.Base.Show.{show_ℤ}
use agf_orchestrator.Scheduler.Models.{SchedulerState, SchedulerStatus, status_is, status_value}
use agf_orchestrator.Scheduler.Store.{File, Disk, load, transition_stored}

pub data SchedulerCommand : Type 0 where
  start pause resume cancel status audit : SchedulerCommand

abbrev command_value : SchedulerCommand → String
command_value start = "start"
command_value pause = "pause"
command_value resume = "resume"
command_value cancel = "cancel"
command_value status = "status"
command_value audit = "audit"

pub record SchedulerCommandResult : Type 0 where
  pub command : SchedulerCommand
  pub state : SchedulerState
  pub changed : Bool
  pub evidence : List String

-- `_TARGETS`; STATUS and AUDIT have none.
abbrev pub target : SchedulerCommand → Option SchedulerStatus
target start = some SchedulerStatus.running
target pause = some SchedulerStatus.paused
target resume = some SchedulerStatus.running
target cancel = some SchedulerStatus.cancelled
target _ = none

-- `_allowed_command`
abbrev pub allowed_command : SchedulerCommand → SchedulerStatus → Bool
allowed_command start SchedulerStatus.created = true
allowed_command pause SchedulerStatus.running = true
allowed_command resume SchedulerStatus.paused = true
allowed_command resume SchedulerStatus.blocked = true
allowed_command resume SchedulerStatus.human_required = true
allowed_command cancel SchedulerStatus.created = true
allowed_command cancel SchedulerStatus.running = true
allowed_command cancel SchedulerStatus.paused = true
allowed_command cancel SchedulerStatus.blocked = true
allowed_command cancel SchedulerStatus.human_required = true
allowed_command _ _ = false

abbrev read_label : SchedulerCommand → String
read_label status = "status snapshot"
read_label _ = "audit snapshot"

-- `_read_result`
abbrev pub read_result : SchedulerCommand → SchedulerState → SchedulerCommandResult
read_result command s = record {
  command = command;
  state = s;
  changed = false;
  evidence = read_label command ∷ ("event_sequence=" ++ show_ℤ s.event_sequence) ∷ [];
}

-- `_evidence`
abbrev command_evidence : SchedulerCommand → SchedulerState → List String
command_evidence command s =
    ("command=" ++ command_value command)
    ∷ ("status=" ++ status_value s.status)
    ∷ ("event_sequence=" ++ show_ℤ s.event_sequence)
    ∷ []

abbrev pub command_result : SchedulerCommand → SchedulerState → Bool → SchedulerCommandResult
command_result command s changed = record {
  command = command;
  state = s;
  changed = changed;
  evidence = command_evidence command s;
}

-- `except SchedulerStoreError as exc: raise SchedulerCommandError(str(exc)) from exc`
abbrev pub as_command_error {ℓ} : {A : Type ℓ} → Result A → Result A
as_command_error (ok a) = ok a
as_command_error (raise (scheduler_store_error m)) = raise (scheduler_command_error m)
as_command_error (raise e) = raise e

-- What is left of `execute` once the state is loaded: the result, and the file that it leaves.
unfoldable pub execute_loaded :
    Disk
    → File
    → SchedulerCommand
    → SchedulerState
    → Option SchedulerStatus
    → Result SchedulerCommandResult × File
execute_loaded disk file command current none = (ok (read_result command current), file)
execute_loaded disk file command current (some to) =
    if status_is current.status to
    then (ok (command_result command current false), file)
    else if not (allowed_command command current.status)
    then (
      raise (
          scheduler_command_error (
            "command "
            ++ command_value command
            ++ " is not allowed from "
            ++ status_value current.status)),
      file,
    )
    else let (r, file') = transition_stored disk file to in
      (as_command_error r >>= λ updated. ok (command_result command updated true), file')

-- `execute`: it loads the state under one lock and moves it under a second one. `before` and `file` are
-- the file at the two moments; they differ if another process wrote between them.
unfoldable pub execute :
    Disk → File → File → SchedulerCommand → Result SchedulerCommandResult × File
unfolding execute_loaded
execute disk before file command = elim (as_command_error (load before)) [
  | raise e ↦ (raise e, file)
  | ok current ↦ execute_loaded disk file command current (target command)
]
