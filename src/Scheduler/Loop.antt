-- ===== src/Scheduler/Loop.antt =====
-- The bounded cooperative loop (src/agf_orchestrator/scheduler_loop.py).
pub mod Trace
use Prim.Native.String.{◌++◌}
use agf_orchestrator.Base.{
  ℕ, zero, suc, Bool, true, false, not, ◌&&◌, ◌||◌, Option, none, some, List, [], ◌∷◌,
  ◌++◌ as append, String, length, ◌==◌, if◌then◌else◌,
}
use agf_orchestrator.Base.Int.{ℤ, pos, ◌+ℤ◌, leb_ℤ, eq_ℤ, pos_part}
use agf_orchestrator.Base.Raise.{
  Error, Result, ok, raise, scheduler_loop_error, raise_if, ◌>>=◌, ◌>>◌,
}
use agf_orchestrator.Base.Show.{show_06d}
use agf_orchestrator.Base.Text.{str_eq}
use agf_orchestrator.Scheduler.Models.{SchedulerState, SchedulerStatus, status_value, validate}

-- `STOP_STATES`
abbrev pub is_stop : SchedulerStatus → Bool
is_stop SchedulerStatus.completed = true
is_stop SchedulerStatus.failed = true
is_stop SchedulerStatus.cancelled = true
is_stop SchedulerStatus.blocked = true
is_stop SchedulerStatus.human_required = true
is_stop _ = false

pub record SchedulerEvent : Type 0 where
  pub event_id : String
  pub sequence : ℤ
  pub event_type : String
  pub from_status : String
  pub to_status : String
  pub summary : String

pub record LoopResult : Type 0 where
  pub state : SchedulerState
  pub events : List SchedulerEvent
  pub steps : ℕ
  pub limit_reached : Bool

-- The event of one completed step.
abbrev pub step_event : ℕ → SchedulerState → SchedulerState → SchedulerEvent
step_event sequence previous current = record {
  event_id = "event-" ++ show_06d sequence;
  sequence = pos sequence;
  event_type = "STATE_TRANSITION";
  from_status = status_value previous.status;
  to_status = status_value current.status;
  summary = "scheduler step completed";
}

-- `except Exception as exc: raise SchedulerLoopError("scheduler step failed") from exc`
abbrev pub guarded : Result SchedulerState → Result SchedulerState
guarded (ok s) = ok s
guarded (raise e) = raise (scheduler_loop_error "scheduler step failed")

-- The checks of the loop's body on the state that a step returned.
unfoldable pub check_step : SchedulerState → SchedulerState → SchedulerState → Result (Unit {0})
check_step start previous current = do
  validate current
  raise_if
      (not (str_eq current.project_id start.project_id)
        || not (str_eq current.scheduler_id start.scheduler_id))
      (scheduler_loop_error "scheduler step changed state identity")
  raise_if (not (eq_ℤ current.event_sequence (previous.event_sequence +ℤ pos 1)))
      (scheduler_loop_error "scheduler step did not advance event sequence")

-- The `LoopResult` of the state and the events at the end of the loop.
abbrev pub loop_result : ℤ → SchedulerState × List SchedulerEvent → LoopResult
loop_result max_steps (current, events) = record {
  state = current;
  events = events;
  steps = length events;
  limit_reached = eq_ℤ (pos (length events)) max_steps;
}

module _ (start : SchedulerState) (step : SchedulerState → Result SchedulerState) where
  -- The rounds of the loop that are left, with the state and the events so far.
  unfoldable pub rounds :
      ℕ → SchedulerState → List SchedulerEvent → Result (SchedulerState × List SchedulerEvent)
  unfolding check_step
  rounds zero current events = ok (current, events)
  rounds (suc left) current events = elim (is_stop current.status) [
    | true ↦ ok (current, events)
    | false ↦ guarded (step current) >>= λ next.
        check_step start current next
        >> rounds left next (append events (step_event (suc (length events)) current next ∷ []))
  ]

  -- `run_bounded`
  unfoldable pub run_bounded : ℤ → Result LoopResult
  unfolding rounds
  run_bounded max_steps = do
    validate start
    raise_if (not (leb_ℤ (pos 1) max_steps && leb_ℤ max_steps (pos 100)))
        (scheduler_loop_error "max_steps is invalid")
    reached ← rounds (pos_part max_steps) start []
    ok (loop_result max_steps reached)
