-- ===== src/Scheduler/Recovery.antt =====
-- Recovery from an expired lease and from an interruption (src/agf_orchestrator/scheduler_recovery.py).
pub mod Release
use agf_orchestrator.Base.{Bool, true, false, not, Option, none, some, String, if◌then◌else◌}
use agf_orchestrator.Base.Int.{ℤ, pos, ◌+ℤ◌}
use agf_orchestrator.Base.Raise.{
  Error, Result, ok, raise, scheduler_recovery_error, raise_if, ◌>>=◌, ◌>>◌,
}
use agf_orchestrator.Base.Text.{is_timestamp, str_lt}
use agf_orchestrator.Scheduler.Models.{
  SchedulerState, SchedulerStatus, status_is, running, paused, validate, transition,
}

pub data RecoveryStatus : Type 0 where
  recovered active no_lease human_required : RecoveryStatus

pub record RecoveryDecision : Type 0 where
  pub status : RecoveryStatus
  pub state : SchedulerState
  pub reason : String

abbrev recovery : RecoveryStatus → SchedulerState → String → Result RecoveryDecision
recovery status s reason = ok (record { status = status; state = s; reason = reason })

-- `replace(state, status=PAUSED, current_item_id=None, lease_owner=None, …)`
abbrev pub released : SchedulerState → SchedulerState
released s = record s {
  status = paused;
  current_item_id = none;
  lease_owner = none;
  lease_expires_at = none;
  event_sequence = s.event_sequence +ℤ pos 1;
}

-- The end of `recover_expired_lease`, on the time at which the lease expires.
unfoldable pub recover_lease : SchedulerState → String → Option String → Result RecoveryDecision
recover_lease s now none = recovery no_lease s "no active lease exists"
recover_lease s now (some expires_at) =
    if str_lt now expires_at
    then recovery active s "lease is still active"
    else (validate (released s)
        >> recovery recovered (released s) "expired lease released; scheduler paused")

-- `recover_expired_lease`
unfoldable pub recover_expired_lease : SchedulerState → String → Result RecoveryDecision
unfolding recover_lease
recover_expired_lease s now = do
  validate s
  raise_if (not (is_timestamp now)) (scheduler_recovery_error "recovery timestamp is invalid")
  if status_is s.status SchedulerStatus.human_required
      then recovery human_required s "human intervention is required"
      else recover_lease s now s.lease_expires_at

-- `recover_interruption`
unfoldable pub recover_interruption : SchedulerState → Result RecoveryDecision
recover_interruption s = do
  validate s
  if status_is s.status SchedulerStatus.human_required
      then recovery human_required s "human intervention is required"
      else if not (status_is s.status running)
      then recovery no_lease s "scheduler is not RUNNING"
      else (transition s paused >>= λ t.
          recovery recovered t "interruption recovered; scheduler paused")
