-- ===== src/Tests/Schedulers.antt =====
-- Schedulers (src/agf_orchestrator/scheduler_*.py) on concrete inputs.
use agf_orchestrator.Base.{
  ◌≡◌, ◌≢◌, refl, ◌⊎◌, inl, Bool, true, false, Option, none, some, [], ◌∷◌, String,
}
use agf_orchestrator.Base.Int.{pos, ◌+ℤ◌, ◌≤ℤ◌}
use agf_orchestrator.Base.Raise.{Result, ok}
use agf_orchestrator.Base.Text.{
  str_lt, is_identifier, has_text, len_le, is_space, is_digit_text, is_digit, is_timestamp,
  is_decimal, is_nonempty,
}
use agf_orchestrator.Base.Show.{show_06d}
use agf_orchestrator.Roadmap.Eligible.{eligible_of}
use agf_orchestrator.Roadmap.Lifecycle.{eligible_items, all_completed, eligible_from}
use agf_orchestrator.Scheduler.Models.{
  SchedulerState, SchedulerStatus, created, running, paused, cancelled, completed, validate,
  transition, move,
}
use agf_orchestrator.Scheduler.Models.Lifecycle.{run}
use agf_orchestrator.Scheduler.Selection.{
  SelectionDecision, selected, blocked, validate_request, claim, claim_first, select_gated,
  select_next,
}
use agf_orchestrator.Scheduler.Selection.Lease.{
  Decides, select_next-Decides, select_next_exclusive, kept,
}
use agf_orchestrator.Scheduler.Recovery.{RecoveryDecision, recovered, recover_expired_lease}
use agf_orchestrator.Scheduler.Recovery.Release.{
  is_expired, recover_expired_lease_lem, recover_expired_lease_revives,
}
use agf_orchestrator.Scheduler.Loop.{is_stop, LoopResult, check_step, rounds, run_bounded}
use agf_orchestrator.Scheduler.Loop.Trace.{IsRun, run_bounded-IsRun, run_bounded_lem}
use agf_orchestrator.Tests.Roadmaps.{done, done_valid}

abbrev pub state : SchedulerStatus → Option String → SchedulerState
state status expires = record {
  schema_version = "1.0";
  scheduler_id = "scheduler-1";
  project_id = "project-1";
  roadmap_id = "roadmap-1";
  roadmap_version = "3";
  status = status;
  current_item_id = none;
  created_at = "2025-01-01T00:00:00Z";
  updated_at = "2025-01-01T00:00:00Z";
  lease_owner = elim expires [ none ↦ none | some _ ↦ some "worker" ];
  lease_expires_at = expires;
  budget_limit = pos 10;
  budget_used = pos 2;
  blocking_issues = [];
  required_human_actions = [];
  event_sequence = pos 4;
}

valid_running : validate (state running none) ≡ ok tt
unfolding validate is_identifier is_digit_text is_digit is_timestamp is_decimal has_text len_le
    is_space is_nonempty
valid_running = refl

pub valid_created : validate (state created none) ≡ ok tt
unfolding validate is_identifier is_digit_text is_digit is_timestamp is_decimal has_text len_le
    is_space is_nonempty
valid_created = refl

pub valid_paused : validate (state paused none) ≡ ok tt
unfolding validate is_identifier is_digit_text is_digit is_timestamp is_decimal has_text len_le
    is_space is_nonempty
valid_paused = refl

valid_completed : validate (state completed (some "2025-01-01T00:00:00Z")) ≡ ok tt
unfolding validate is_identifier is_digit_text is_digit is_timestamp is_decimal has_text len_le
    is_space is_nonempty
valid_completed = refl

request_valid : validate_request "worker" "2025-01-02T00:00:00Z" (pos 3) ≡ ok tt
unfolding validate_request is_timestamp is_decimal has_text len_le is_space
request_valid = refl

abbrev picked : SelectionDecision
picked = record {
  status = selected;
  item_id = some "item-b";
  reason = "eligible item leased";
  state = claim (state running none) "item-b" "worker" "2025-01-02T00:00:00Z" (pos 3);
}

selects : select_next done (state running none) "worker" "2025-01-02T00:00:00Z" (pos 3) ≡ ok picked
unfolding select_next select_gated claim_first eligible_items eligible_from all_completed str_lt
    ◌+ℤ◌ validate validate_request is_identifier is_digit_text is_digit is_timestamp is_decimal
    has_text len_le is_space is_nonempty
selects = rw done_valid refl

select_next-Decides_example :
    (d : SelectionDecision) × (select_next done
        (state running none)
        "worker"
        "2025-01-02T00:00:00Z"
        (pos 3)
      ≡ ok d)
    × Decides (state running none) "worker" "2025-01-02T00:00:00Z" (pos 3) (eligible_of done) d
select_next-Decides_example =
    select_next-Decides done (state running none) "worker" "2025-01-02T00:00:00Z" (pos 3) done_valid
      valid_running request_valid

select_next_exclusive_example :
    select_next done picked.state "worker" "2025-01-02T00:00:00Z" (pos 3)
    ≡ ok (kept blocked "an active lease already exists" picked.state)
select_next_exclusive_example =
    select_next_exclusive done (state running none) "worker" "2025-01-02T00:00:00Z" (pos 3) picked
      done_valid valid_running request_valid selects refl done "worker" "2025-01-02T00:00:00Z"
      (pos 3) done_valid request_valid

now_valid : is_timestamp "2025-01-03T00:00:00Z" ≡ true
unfolding is_timestamp is_decimal
now_valid = refl

expired : is_expired (state completed (some "2025-01-01T00:00:00Z")) "2025-01-03T00:00:00Z" ≡ true
unfolding str_lt
expired = refl

abbrev ended : SchedulerState
ended = state completed (some "2025-01-01T00:00:00Z")

recover_expired_lease_lem_example :
    (d : RecoveryDecision) × (recover_expired_lease ended "2025-01-03T00:00:00Z" ≡ ok d)
    × (completed ≢ SchedulerStatus.human_required
        → is_expired ended "2025-01-03T00:00:00Z" ≡ true
        → (d.status ≡ recovered)
          × (d.state ≡ record ended {
            status = paused;
            current_item_id = none;
            lease_owner = none;
            lease_expires_at = none;
            event_sequence = ended.event_sequence +ℤ pos 1;
          }))
    × ((completed ≡ SchedulerStatus.human_required)
          ⊎ (is_expired ended "2025-01-03T00:00:00Z" ≡ false)
        → (d.status ≢ recovered) × (d.state ≡ ended))
recover_expired_lease_lem_example =
    recover_expired_lease_lem ended "2025-01-03T00:00:00Z" valid_completed now_valid

recover_expired_lease_revives_example :
    ((to : SchedulerStatus) (u : SchedulerState) → transition ended to ≢ ok u)
    × (d : RecoveryDecision) × (recover_expired_lease ended "2025-01-03T00:00:00Z" ≡ ok d)
    × (d.state.status ≡ paused)
    × (u : SchedulerState) × (transition d.state running ≡ ok u)
    × (u.status ≡ running)
recover_expired_lease_revives_example =
    recover_expired_lease_revives ended "2025-01-03T00:00:00Z" valid_completed now_valid (inl refl)
      expired

-- Two transitions: to RUNNING, then to COMPLETED.
two_moves :
    run (state created none) (running ∷ completed ∷ [])
    ≡ ok (move (move (state created none) running) completed)
unfolding run transition validate is_identifier is_digit_text is_digit is_timestamp is_decimal
    has_text len_le is_space is_nonempty ◌+ℤ◌
two_moves = refl

no_moves : run (state cancelled none) [] ≡ ok (state cancelled none)
unfolding run
no_moves = refl

-- A step function that starts the scheduler and then completes it.
abbrev step : SchedulerState → Result SchedulerState
step s = transition s (elim s.status [ created ↦ running | _ ↦ completed ])

abbrev two_steps : LoopResult
two_steps = record {
  state = move (move (state created none) running) completed;
  events =
      record {
        event_id = "event-000001";
        sequence = pos 1;
        event_type = "STATE_TRANSITION";
        from_status = "CREATED";
        to_status = "RUNNING";
        summary = "scheduler step completed";
      }
      ∷ record {
        event_id = "event-000002";
        sequence = pos 2;
        event_type = "STATE_TRANSITION";
        from_status = "RUNNING";
        to_status = "COMPLETED";
        summary = "scheduler step completed";
      }
      ∷ [];
  steps = 2;
  limit_reached = false;
}

runs : run_bounded (state created none) step (pos 5) ≡ ok two_steps
unfolding run_bounded rounds check_step transition validate is_identifier is_digit_text is_digit
    is_timestamp is_decimal has_text len_le is_space is_nonempty ◌+ℤ◌ show_06d
runs = refl

run_bounded_lem_example :
    (validate two_steps.state ≡ ok tt)
    × (two_steps.state.project_id ≡ "project-1")
    × (two_steps.state.scheduler_id ≡ "scheduler-1")
    × (two_steps.state.event_sequence ≡ pos 4 +ℤ pos 2)
    × (pos 2 ≤ℤ pos 5)
    × (◌≡◌ {A = Bool} false false → is_stop two_steps.state.status ≡ true)
run_bounded_lem_example = run_bounded_lem (state created none) step (pos 5) two_steps runs

run_bounded-IsRun_example : IsRun (state created none) step (pos 5) two_steps
run_bounded-IsRun_example = run_bounded-IsRun (state created none) step (pos 5) two_steps runs
