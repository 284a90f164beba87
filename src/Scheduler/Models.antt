-- ===== src/Scheduler/Models.antt =====
-- The scheduler's state, its validation and its lifecycle (src/agf_orchestrator/scheduler_models.py).
-- The fields have the types that the source annotates; its `isinstance` checks are those types.
pub mod Lifecycle
use agf_orchestrator.Base.{
  Bool, true, false, not, ◌&&◌, Option, none, some, List, [], ◌∷◌, String, leb, length, all,
}
use agf_orchestrator.Base.Int.{ℤ, pos, ◌+ℤ◌, leb_ℤ}
use agf_orchestrator.Base.Raise.{
  Error, Result, ok, raise, scheduler_validation_error, require_all, raise_if, ◌>>=◌, ◌>>◌,
}
use agf_orchestrator.Base.Text.{str_eq, is_identifier, is_digit_text, is_timestamp, is_bounded_text}
use Prim.Native.String.{◌++◌}

pub data SchedulerStatus : Type 0 where
  created running paused blocked human_required completed failed cancelled : SchedulerStatus

-- The `StrEnum` value of a status.
abbrev pub status_value : SchedulerStatus → String
status_value created = "CREATED"
status_value running = "RUNNING"
status_value paused = "PAUSED"
status_value blocked = "BLOCKED"
status_value human_required = "HUMAN_REQUIRED"
status_value completed = "COMPLETED"
status_value failed = "FAILED"
status_value cancelled = "CANCELLED"

-- `a is b`
abbrev pub status_is : SchedulerStatus → SchedulerStatus → Bool
status_is created created = true
status_is running running = true
status_is paused paused = true
status_is blocked blocked = true
status_is human_required human_required = true
status_is completed completed = true
status_is failed failed = true
status_is cancelled cancelled = true
status_is _ _ = false

pub record SchedulerState : Type 0 where
  pub schema_version : String
  pub scheduler_id : String
  pub project_id : String
  pub roadmap_id : String
  pub roadmap_version : String
  pub status : SchedulerStatus
  pub current_item_id : Option String
  pub created_at : String
  pub updated_at : String
  pub lease_owner : Option String
  pub lease_expires_at : Option String
  pub budget_limit : ℤ
  pub budget_used : ℤ
  pub blocking_issues : List String
  pub required_human_actions : List String
  pub event_sequence : ℤ

-- `_TRANSITIONS[from]` contains `to`.
abbrev pub transitions : SchedulerStatus → SchedulerStatus → Bool
transitions created running = true
transitions created blocked = true
transitions created human_required = true
transitions created cancelled = true
transitions running paused = true
transitions running blocked = true
transitions running human_required = true
transitions running completed = true
transitions running failed = true
transitions running cancelled = true
transitions paused running = true
transitions paused blocked = true
transitions paused human_required = true
transitions paused cancelled = true
transitions blocked running = true
transitions blocked cancelled = true
transitions human_required running = true
transitions human_required cancelled = true
transitions _ _ = false

-- `_MAX_BUDGET`
abbrev max_budget : ℤ
max_budget = pos 1000000000

-- `x is None or p(x)`
abbrev none_or {ℓ} : {A : Type ℓ} → (A → Bool) → Option A → Bool
none_or p none = true
none_or p (some a) = p a

abbrev pub is_none {ℓ} : {A : Type ℓ} → Option A → Bool
is_none none = true
is_none (some a) = false

-- `(a is None) == (b is None)`
abbrev paired : Option String → Option String → Bool
paired none none = true
paired (some a) (some b) = true
paired _ _ = false

-- `_bounded_list` with `allow_empty=True`
abbrev bounded_list : List String → Bool
bounded_list values = leb (length values) 200 && all is_bounded_text values

-- The tests of `validate`, each with the exception that its failure raises.
abbrev pub validation : SchedulerState → List (Bool × Error)
validation s =
    (str_eq s.schema_version "1.0", scheduler_validation_error "schema_version must be 1.0")
    ∷ (
      is_identifier "scheduler-" s.scheduler_id,
      scheduler_validation_error "scheduler_id is invalid",
    )
    ∷ (is_identifier "project-" s.project_id, scheduler_validation_error "project_id is invalid")
    ∷ (is_identifier "roadmap-" s.roadmap_id, scheduler_validation_error "roadmap_id is invalid")
    ∷ (is_digit_text s.roadmap_version, scheduler_validation_error "roadmap_version is invalid")
    ∷ (
      none_or (is_identifier "item-") s.current_item_id,
      scheduler_validation_error "current_item_id is invalid",
    )
    ∷ (is_timestamp s.created_at, scheduler_validation_error "created_at is invalid")
    ∷ (is_timestamp s.updated_at, scheduler_validation_error "updated_at is invalid")
    ∷ (none_or is_bounded_text s.lease_owner, scheduler_validation_error "lease_owner is invalid")
    ∷ (
      none_or is_timestamp s.lease_expires_at,
      scheduler_validation_error "lease_expires_at is invalid",
    )
    ∷ (
      paired s.lease_owner s.lease_expires_at,
      scheduler_validation_error "lease owner and expiry must be paired",
    )
    ∷ (
      leb_ℤ (pos 0) s.budget_limit && leb_ℤ s.budget_limit max_budget,
      scheduler_validation_error "budget_limit is invalid",
    )
    ∷ (
      leb_ℤ (pos 0) s.budget_used && leb_ℤ s.budget_used s.budget_limit,
      scheduler_validation_error "budget_used is invalid",
    )
    ∷ (bounded_list s.blocking_issues, scheduler_validation_error "blocking_issues is invalid")
    ∷ (
      bounded_list s.required_human_actions,
      scheduler_validation_error "required_human_actions is invalid",
    )
    ∷ (leb_ℤ (pos 0) s.event_sequence, scheduler_validation_error "event_sequence is invalid")
    ∷ []

-- `SchedulerState.validate`
unfoldable pub validate : SchedulerState → Result (Unit {0})
validate s = require_all (validation s)

-- `replace(self, status=status, event_sequence=self.event_sequence + 1)`
abbrev pub move : SchedulerState → SchedulerStatus → SchedulerState
move s to = record s { status = to; event_sequence = s.event_sequence +ℤ pos 1 }

-- `SchedulerState.transition`
unfoldable pub transition : SchedulerState → SchedulerStatus → Result SchedulerState
transition s to = do
  validate s
  raise_if (not (transitions s.status to)) (
      scheduler_validation_error
        ("invalid scheduler transition: " ++ status_value s.status ++ " -> " ++ status_value to))
  ok (move s to)
