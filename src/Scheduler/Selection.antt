-- ===== src/Scheduler/Selection.antt =====
-- Selection of the next item under a lease and a budget (src/agf_orchestrator/scheduler_selection.py).
pub mod Lease
use agf_orchestrator.Base.{
  Bool, true, false, not, ◌&&◌, ◌||◌, Option, none, some, List, [], ◌∷◌, String, if◌then◌else◌,
}
use agf_orchestrator.Base.Int.{ℤ, pos, ◌+ℤ◌, leb_ℤ, ltb_ℤ}
use agf_orchestrator.Base.Raise.{
  Error, Result, ok, raise, selection_validation_error, require_all, ◌>>=◌, ◌>>◌,
}
use agf_orchestrator.Base.Text.{is_timestamp, is_bounded_text}
use agf_orchestrator.Roadmap.Models as Roadmaps
use agf_orchestrator.Roadmap.Models.{Roadmap, RoadmapItem}
use agf_orchestrator.Roadmap.Lifecycle.{eligible_items}
use agf_orchestrator.Scheduler.Models.{
  SchedulerState, SchedulerStatus, status_is, is_none, running, validate,
}

pub data SelectionStatus : Type 0 where
  selected no_eligible blocked human_required : SelectionStatus

pub record SelectionDecision : Type 0 where
  pub status : SelectionStatus
  pub item_id : Option String
  pub reason : String
  pub state : SchedulerState

-- The tests of `_validate_request`.
abbrev pub request_checks : String → String → ℤ → List (Bool × Error)
request_checks lease_owner lease_expires_at estimated_cost =
    (is_bounded_text lease_owner, selection_validation_error "lease_owner is invalid")
    ∷ (is_timestamp lease_expires_at, selection_validation_error "lease_expires_at is invalid")
    ∷ (not (leb_ℤ estimated_cost (pos 0)), selection_validation_error "estimated_cost is invalid")
    ∷ []

unfoldable pub validate_request : String → String → ℤ → Result (Unit {0})
validate_request lease_owner lease_expires_at estimated_cost =
    require_all (request_checks lease_owner lease_expires_at estimated_cost)

-- `replace(state, current_item_id=…, lease_owner=…, …)`
abbrev pub claim : SchedulerState → String → String → String → ℤ → SchedulerState
claim s item_id lease_owner lease_expires_at estimated_cost = record s {
  current_item_id = some item_id;
  lease_owner = some lease_owner;
  lease_expires_at = some lease_expires_at;
  budget_used = s.budget_used +ℤ estimated_cost;
  event_sequence = s.event_sequence +ℤ pos 1;
}

abbrev decide : SelectionStatus → String → SchedulerState → Result SelectionDecision
decide status reason s = ok (record { status = status; item_id = none; reason = reason; state = s })

-- The end of `select_next`, on the eligible items.
unfoldable pub claim_first :
    SchedulerState → String → String → ℤ → List RoadmapItem → Result SelectionDecision
claim_first s lease_owner lease_expires_at estimated_cost [] =
    decide no_eligible "no eligible roadmap item" s
claim_first s lease_owner lease_expires_at estimated_cost (item ∷ items) =
    let claimed = claim s item.item_id lease_owner lease_expires_at estimated_cost in
    validate claimed
    >> ok (record {
      status = selected;
      item_id = some item.item_id;
      reason = "eligible item leased";
      state = claimed;
    })

-- The gates of `select_next`, after its validation.
unfoldable pub select_gated :
    Roadmap → SchedulerState → String → String → ℤ → Result SelectionDecision
unfolding claim_first
select_gated roadmap s lease_owner lease_expires_at estimated_cost =
    if status_is s.status SchedulerStatus.human_required
    then decide SelectionStatus.human_required "human intervention is required" s
    else if not (status_is s.status running)
    then decide blocked "scheduler is not RUNNING" s
    else if not (is_none s.current_item_id) || not (is_none s.lease_owner)
    then decide blocked "an active lease already exists" s
    else if ltb_ℤ s.budget_limit (s.budget_used +ℤ estimated_cost)
    then decide blocked "budget is insufficient" s
    else (eligible_items roadmap >>= λ eligible.
        claim_first s lease_owner lease_expires_at estimated_cost eligible)

-- `select_next`
unfoldable pub select_next :
    Roadmap → SchedulerState → String → String → ℤ → Result SelectionDecision
unfolding select_gated
select_next roadmap s lease_owner lease_expires_at estimated_cost = do
  Roadmaps.validate roadmap
  validate s
  validate_request lease_owner lease_expires_at estimated_cost
  select_gated roadmap s lease_owner lease_expires_at estimated_cost
