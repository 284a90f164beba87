-- ===== src/Campaign/Steps.antt =====
-- The states that a runner writes (src/agf_orchestrator/campaign_runner.py), from the state that it loaded and
-- the times that it read.
pub mod Valid
use Prim.Native.Nat.{◌^◌}
use agf_orchestrator.Base.{
  ℕ, suc, ◌+◌, ◌-◌, ◌*◌, Bool, true, false, not, ◌&&◌, ◌||◌, Option, none, some, List, [], ◌∷◌,
  ◌++◌, String, if◌then◌else◌, ltb, leb, length,
}
use agf_orchestrator.Base.Raise.{
  Error, Result, ok, raise, campaign_runner_error, assertion_error, ◌>>=◌, ◌>>◌, raise_if,
}
use agf_orchestrator.Base.Text.{str_eq, is_nonempty, codes}
use agf_orchestrator.Campaign.Models.{
  Calendar, CampaignState, CampaignStatus, CampaignEvent, status_value, is_terminal, is_waiting,
  validate, parse_timestamp, running, retry_backoff, waiting_external, blocked_non_retryable,
  complete, cancelled, human_required, no_justified_work, is_none,
}

-- The arguments of `make_initial_state`.
pub record Start : Type 0 where
  pub project_id : String
  pub campaign_id : String
  pub session_id : String
  pub phase : String
  pub operation_id : String
  pub target_sha : String
  pub lineage_binding : String
  pub retry_budget : ℕ
  pub policy_binding : Option String
  pub authority_generation : Option ℕ

abbrev pub initial : Calendar → ℕ → Start → CampaignState
initial calendar at a = record {
  schema_version = "1.0";
  campaign_id = a.campaign_id;
  project_id = a.project_id;
  session_id = a.session_id;
  status = running;
  phase = a.phase;
  reason = none;
  resource = none;
  expected_condition = none;
  created_at = calendar.print at;
  updated_at = calendar.print at;
  waiting_since = none;
  next_check_at = none;
  lease_owner = none;
  lease_expires_at = none;
  retry_count = 0;
  retry_budget = a.retry_budget;
  operation_id = a.operation_id;
  target_sha = a.target_sha;
  lineage_binding = a.lineage_binding;
  wake_generation = 0;
  event_sequence = 0;
  events = [];
  policy_binding = a.policy_binding;
  authority_generation = a.authority_generation;
}

-- `make_initial_state`
unfoldable pub make_initial_state : Calendar → ℕ → Start → Result CampaignState
make_initial_state calendar at a =
    validate calendar (initial calendar at a) >> ok (initial calendar at a)

-- The event of `_append`.
abbrev pub next_event : Calendar → ℕ → CampaignState → String → String → String → CampaignEvent
next_event calendar at s event_type status summary = record {
  sequence = s.event_sequence + 1;
  event_type = event_type;
  status = status;
  timestamp = calendar.print at;
  summary = summary;
}

-- `_append`, at the time that it reads
abbrev pub append : Calendar → ℕ → CampaignState → String → String → String → CampaignState
append calendar at s event_type status summary = record s {
  updated_at = calendar.print at;
  event_sequence = s.event_sequence + 1;
  wake_generation = s.wake_generation + (if str_eq event_type "WAKE" then 1 else 0);
  events = s.events ++ next_event calendar at s event_type status summary ∷ [];
}

-- `value or default`
abbrev pub or_else : Option String → String → String
or_else none default = default
or_else (some s) default = if is_nonempty s then s else default

-- A runner's settings.
pub record Runner : Type 0 where
  pub project_id : String
  pub campaign_id : String
  pub worker_id : String
  pub base_backoff_seconds : ℕ
  pub max_backoff_seconds : ℕ
  pub lease_seconds : ℕ

-- The test of `__init__`.
abbrev pub bounds_are_valid : Runner → Bool
bounds_are_valid r =
    leb 1 r.base_backoff_seconds && leb r.base_backoff_seconds r.max_backoff_seconds

abbrev pub least : ℕ → ℕ → ℕ
least a b = if leb a b then a else b

-- The wait before the retry of this number.
unfoldable pub backoff_delay : Runner → ℕ → ℕ
backoff_delay r count =
    least r.max_backoff_seconds (r.base_backoff_seconds * 2 ^ least (count - 1) 10)

-- `_schedule_retry` when the budget is used up
abbrev pub exhausted : Calendar → ℕ → CampaignState → String → CampaignState
exhausted calendar at s reason =
    record (append calendar at s "RETRY_EXHAUSTED" "BLOCKED_NON_RETRYABLE" reason) {
      status = blocked_non_retryable;
      reason = some reason;
      waiting_since = none;
      next_check_at = none;
      retry_count = s.retry_count + 1 - 1;
      lease_owner = none;
      lease_expires_at = none;
    }

-- `_schedule_retry` within the budget, with the time of the next check
abbrev pub backed_off : Calendar → ℕ → ℕ → CampaignState → String → CampaignState
backed_off calendar at next s reason =
    record (append calendar at s "RETRY_BACKOFF" (status_value retry_backoff) reason) {
      status = retry_backoff;
      reason = some reason;
      resource = some (or_else s.resource "campaign-external-boundary");
      expected_condition = some (or_else s.expected_condition "retry budget remains");
      waiting_since = some (calendar.print at);
      next_check_at = some (calendar.print next);
      retry_count = s.retry_count + 1;
      lease_owner = none;
      lease_expires_at = none;
    }

-- The state that `_schedule_retry` saves.
unfoldable pub retried : Calendar → Runner → ℕ → CampaignState → String → Result CampaignState
retried calendar r at s reason =
    if ltb s.retry_budget (s.retry_count + 1)
    then ok (exhausted calendar at s reason)
    else (parse_timestamp calendar (calendar.print at) >>= λ recorded.
        ok (backed_off calendar at (recorded + backoff_delay r (s.retry_count + 1)) s reason))

pub record WaitRequest : Type 0 where
  pub status : CampaignStatus
  pub reason : String
  pub resource : String
  pub expected_condition : String
  pub next_check_at : String

-- `WaitRequest.__post_init__`
unfoldable pub check_wait : WaitRequest → Result (Unit {0})
check_wait w =
    raise_if (not (is_waiting w.status))
      (campaign_runner_error "wait request status is not resumable")

-- The outcomes that `StepResult.__post_init__` allows.
pub data StepOutcome : Type 0 where
  continues waits retries : StepOutcome
  ends : CampaignStatus → StepOutcome

pub record StepResult : Type 0 where
  pub outcome : StepOutcome
  pub wait : Option WaitRequest
  pub reason : Option String

abbrev pub is_wait : StepOutcome → Bool
is_wait waits = true
is_wait _ = false

-- The outcomes of `ends` have the terminal statuses' names.
abbrev pub is_outcome : StepOutcome → Bool
is_outcome (ends status) = is_terminal status
is_outcome _ = true

-- `StepResult.__post_init__`
unfoldable pub check_result : StepResult → Result (Unit {0})
check_result r = do
  raise_if (not (is_outcome r.outcome)) (campaign_runner_error "campaign step outcome is invalid")
  raise_if (is_wait r.outcome && is_none r.wait)
      (campaign_runner_error "WAIT outcome requires a wait request")
  raise_if (not (is_wait r.outcome) && not (is_none r.wait))
      (campaign_runner_error "only WAIT may carry a wait request")

-- The state of `_apply_result` for WAIT; the two times are the outer one and that of `_append`.
abbrev pub waited : Calendar → ℕ → ℕ → CampaignState → WaitRequest → Option String → CampaignState
waited calendar at recorded s w reason =
    record (append calendar recorded s "WAIT" (status_value w.status) (or_else reason w.reason)) {
      status = w.status;
      reason = some w.reason;
      resource = some w.resource;
      expected_condition = some w.expected_condition;
      waiting_since = some (calendar.print at);
      next_check_at = some w.next_check_at;
      retry_count = s.retry_count;
      lease_owner = none;
      lease_expires_at = none;
    }

-- The state of `_apply_result` for the outcomes but WAIT and RETRY.
abbrev pub stepped :
    Calendar → ℕ → CampaignState → CampaignStatus → String → Option String → CampaignState
stepped calendar recorded s target outcome reason =
    record (append calendar recorded s "STEP" (status_value target) (or_else reason outcome)) {
      status = target;
      reason = reason;
      waiting_since = none;
      next_check_at = none;
      lease_owner = none;
      lease_expires_at = none;
    }

-- The state that `tick` saves on a wake.
abbrev pub woken : Calendar → ℕ → CampaignState → CampaignState
woken calendar at s =
    record (append calendar at s "WAKE" "RUNNING" "external condition satisfied") {
      status = running;
      reason = none;
      resource = none;
      expected_condition = none;
      waiting_since = none;
      next_check_at = none;
    }

-- The state of `invalidate_binding`; `stripped` is `reason.strip()`.
abbrev pub invalidated : Calendar → ℕ → CampaignState → String → String → CampaignState
invalidated calendar at s reason stripped =
    record (append calendar at s "STALE_BINDING" (status_value blocked_non_retryable) reason) {
      status = blocked_non_retryable;
      reason = some stripped;
      waiting_since = none;
      next_check_at = none;
      lease_owner = none;
      lease_expires_at = none;
    }

-- The state of `reset_retry`, at the three times that it reads.
abbrev pub repaired : Calendar → ℕ → ℕ → ℕ → CampaignState → String → String → CampaignState
repaired calendar at since next s reason stripped =
    record (append calendar at s "RETRY_RESET" (status_value waiting_external) reason) {
      status = waiting_external;
      reason = some stripped;
      expected_condition = some "external probe after repaired driver";
      resource = s.resource;
      waiting_since = some (calendar.print since);
      next_check_at = some (calendar.print next);
      retry_count = 0;
      lease_owner = none;
      lease_expires_at = none;
    }
