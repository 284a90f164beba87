-- ===== src/Session/Models.antt =====
-- The statuses of a session and the transitions that the program allows between them
-- (src/agf_orchestrator/session_models.py).
pub mod Graph
use agf_orchestrator.Base.{ℕ, ◌==◌, Bool, true, false, not, ◌&&◌, ◌||◌, Option, List, String}
use agf_orchestrator.Base.Int.{ℤ}

pub data SessionStatus : Type 0 where
  planning ready executing reviewing correcting compliance delivering pr_ready : SessionStatus
  blocked retry_required human_required no_justified_work : SessionStatus
  completed audited cancelled failed stale : SessionStatus

-- The `StrEnum` value of a status.
abbrev pub status_value : SessionStatus → String
status_value planning = "PLANNING"
status_value ready = "READY"
status_value executing = "EXECUTING"
status_value reviewing = "REVIEWING"
status_value correcting = "CORRECTING"
status_value compliance = "COMPLIANCE"
status_value delivering = "DELIVERING"
status_value pr_ready = "PR_READY"
status_value blocked = "BLOCKED"
status_value retry_required = "RETRY_REQUIRED"
status_value human_required = "HUMAN_REQUIRED"
status_value no_justified_work = "NO_JUSTIFIED_WORK"
status_value completed = "COMPLETED"
status_value audited = "AUDITED"
status_value cancelled = "CANCELLED"
status_value failed = "FAILED"
status_value stale = "STALE"

-- The place of a status in the enumeration.
abbrev pub status_index : SessionStatus → ℕ
status_index planning = 0
status_index ready = 1
status_index executing = 2
status_index reviewing = 3
status_index correcting = 4
status_index compliance = 5
status_index delivering = 6
status_index pr_ready = 7
status_index blocked = 8
status_index retry_required = 9
status_index human_required = 10
status_index no_justified_work = 11
status_index completed = 12
status_index audited = 13
status_index cancelled = 14
status_index failed = 15
status_index stale = 16

-- `a is b`
abbrev pub status_is : SessionStatus → SessionStatus → Bool
status_is a b = status_index a == status_index b

-- `TERMINAL_STATUSES`
abbrev pub is_terminal : SessionStatus → Bool
is_terminal completed = true
is_terminal audited = true
is_terminal cancelled = true
is_terminal no_justified_work = true
is_terminal _ = false

-- `ACTIVE_STATUSES`
abbrev is_active : SessionStatus → Bool
is_active s = not (is_terminal s)

-- The literal table `ALLOWED_TRANSITIONS`.
abbrev forward : SessionStatus → SessionStatus → Bool
forward planning ready = true
forward planning no_justified_work = true
forward ready executing = true
forward ready no_justified_work = true
forward executing reviewing = true
forward reviewing correcting = true
forward reviewing compliance = true
forward correcting reviewing = true
forward compliance delivering = true
forward delivering pr_ready = true
forward pr_ready completed = true
forward _ _ = false

-- The set that the loop adds for every active status.
abbrev pub is_stop : SessionStatus → Bool
is_stop blocked = true
is_stop human_required = true
is_stop failed = true
is_stop stale = true
is_stop cancelled = true
is_stop _ = false

-- The updates after the loop.
abbrev pub resume : SessionStatus → SessionStatus → Bool
resume retry_required ready = true
resume retry_required blocked = true
resume retry_required no_justified_work = true
resume blocked retry_required = true
resume blocked no_justified_work = true
resume stale ready = true
resume _ _ = false

-- `ALLOWED_TRANSITIONS[from]` contains `to`, once the module is loaded.
unfoldable pub allowed_transitions : SessionStatus → SessionStatus → Bool
allowed_transitions from to = forward from to || ((is_active from && is_stop to) || resume from to)

pub record SessionEvent : Type 0 where
  pub event_id : String
  pub operation_id : String
  pub timestamp : String
  pub session_id : String
  pub event_type : String
  pub from_status : Option String
  pub to_status : String
  pub summary : String
  pub evidence_refs : List String
  pub blocking_issues : List String
  pub actor : String

pub record Session : Type 0 where
  pub session_id : String
  pub project_id : String
  pub goal : String
  pub created_at : String
  pub updated_at : String
  pub base_sha : String
  pub current_stage : String
  pub status : SessionStatus
  pub plan_path : Option String
  pub execution_report_path : Option String
  pub review_report_path : Option String
  pub compliance_report_path : Option String
  pub delivery_report_path : Option String
  pub delivery_branch : Option String
  pub pr_url : Option String
  pub blocking_issues : List String
  pub required_human_actions : List String
  pub events : List SessionEvent
  pub attempts : List (String × ℤ)
  pub artifact_hashes : List (String × String)
  pub schema_version : String
