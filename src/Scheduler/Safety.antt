-- ===== src/Scheduler/Safety.antt =====
-- The stop gates for lack of progress and for deadlock (src/agf_orchestrator/scheduler_safety.py).
pub mod Gates
use agf_orchestrator.Base.{
  ℕ, suc, ◌≤◌, Bool, true, false, not, ◌&&◌, ◌||◌, Option, none, some, List, [], ◌∷◌, String, leb,
  any, keep, if◌then◌else◌,
}
use mathlib.Core.List.{reverse}
use agf_orchestrator.Base.Int.{ℤ, pos, ltb_ℤ, leb_ℤ, eq_ℤ}
use agf_orchestrator.Base.Raise.{Error, Result, ok, raise, safety_gate_error, raise_if, ◌>>=◌, ◌>>◌}
use agf_orchestrator.Base.Text.{str_eq, is_nonempty}
use agf_orchestrator.Roadmap.Models as Roadmaps
use agf_orchestrator.Roadmap.Models.{
  Roadmap, RoadmapItem, RoadmapItemStatus, item_status_is, is_empty,
}
use agf_orchestrator.Roadmap.Lifecycle.{eligible_items}
use agf_orchestrator.Scheduler.Models.{SchedulerStatus, status_is}

pub data SafetyStatus : Type 0 where
  proceed completed blocked human_required : SafetyStatus

pub record ProgressObservation : Type 0 where
  pub scheduler_id : String
  pub status : SchedulerStatus
  pub current_item_id : Option String
  pub event_sequence : ℤ

pub record SafetyDecision : Type 0 where
  pub status : SafetyStatus
  pub reason : String
  stalled_observations : ℕ

abbrev pub option_eq : Option String → Option String → Bool
option_eq none none = true
option_eq (some a) (some b) = str_eq a b
option_eq _ _ = false

-- Equality of the fingerprints of two observations.
unfoldable pub same_fingerprint : ProgressObservation → ProgressObservation → Bool
same_fingerprint a b =
    str_eq a.scheduler_id b.scheduler_id
    && (status_is a.status b.status
        && (option_eq a.current_item_id b.current_item_id
            && eq_ℤ a.event_sequence b.event_sequence))

-- The loop that counts identical observations, on the observations from the last to the first.
unfoldable pub count_stalled : ProgressObservation → List ProgressObservation → ℕ
count_stalled current [] = 0
count_stalled current (o ∷ os) =
    let more = suc (count_stalled current os) in if same_fingerprint o current then more else 0

abbrev pub decision : SafetyStatus → String → ℕ → SafetyDecision
decision status reason stalled = record {
  status = status;
  reason = reason;
  stalled_observations = stalled;
}

abbrev pub invalid_observation : ProgressObservation → Bool
invalid_observation o = not (is_nonempty o.scheduler_id) || ltb_ℤ o.event_sequence (pos 0)

abbrev pub is_finished : SchedulerStatus → Bool
is_finished SchedulerStatus.completed = true
is_finished SchedulerStatus.cancelled = true
is_finished SchedulerStatus.failed = true
is_finished _ = false

-- The end of `assess_progress`, on the reversed observations, of which the first is the current one.
unfoldable pub assess_current : ProgressObservation → List ProgressObservation → ℤ → SafetyDecision
assess_current current reversed max_stalls =
    if status_is current.status SchedulerStatus.human_required
    then decision human_required "human intervention is required" 0
    else if is_finished current.status
    then decision completed "scheduler reached a terminal state" 0
    else let stalled = count_stalled current reversed in
      if leb_ℤ max_stalls (pos stalled)
      then decision blocked "scheduler made no measurable progress" stalled
      else decision proceed "scheduler progress remains measurable" stalled

abbrev assess_reversed : List ProgressObservation → ℤ → Result SafetyDecision
assess_reversed [] max_stalls = raise (safety_gate_error "progress observations are required")
assess_reversed (current ∷ earlier) max_stalls =
    ok (assess_current current (current ∷ earlier) max_stalls)

-- `assess_progress`
unfoldable pub assess_progress : List ProgressObservation → ℤ → Result SafetyDecision
assess_progress observations max_stalls = do
  raise_if (is_empty observations) (safety_gate_error "progress observations are required")
  raise_if (not (leb_ℤ (pos 1) max_stalls && leb_ℤ max_stalls (pos 100)))
      (safety_gate_error "max_stalls is invalid")
  raise_if (any invalid_observation observations)
      (safety_gate_error "progress observation is invalid")
  assess_reversed (reverse observations) max_stalls

-- `item.status not in {COMPLETED, SUPERSEDED}`
abbrev pub is_unfinished : RoadmapItem → Bool
is_unfinished item = not (
    item_status_is item.status RoadmapItemStatus.completed
    || item_status_is item.status RoadmapItemStatus.superseded)

-- `assess_roadmap`, on the eligible items.
unfoldable pub assess_items : List RoadmapItem → List RoadmapItem → SafetyDecision
assess_items items eligible =
    if not (is_empty eligible)
    then decision proceed "eligible roadmap work exists" 0
    else let unfinished = keep is_unfinished items in
      if is_empty unfinished
      then decision completed "all roadmap work is complete" 0
      else if any (λ (i : RoadmapItem). item_status_is i.status RoadmapItemStatus.ready) unfinished
      then decision blocked "unfinished roadmap work is dependency-blocked" 0
      else decision proceed "roadmap is awaiting explicit lifecycle progress" 0

-- `assess_roadmap`
unfoldable pub assess_roadmap : Roadmap → Result SafetyDecision
unfolding assess_items
assess_roadmap roadmap = do
  Roadmaps.validate roadmap
  eligible ← eligible_items roadmap
  ok (assess_items roadmap.items eligible)
