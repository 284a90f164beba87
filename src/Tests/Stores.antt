-- ===== src/Tests/Stores.antt =====
-- The store, the commands and the safety gates (src/agf_orchestrator/scheduler_store.py, scheduler_commands.py,
-- scheduler_safety.py) on concrete inputs.
use agf_orchestrator.Base.{◌≡◌, refl, ◌↔◌, true, false, ◌&&◌, none, some, [], ◌∷◌, any}
use agf_orchestrator.Base.Int.{pos}
use agf_orchestrator.Base.Raise.{scheduler_store_error, scheduler_command_error, ok, raise}
use agf_orchestrator.Base.Text.{
  is_identifier, has_text, len_le, is_space, is_digit_text, is_digit, is_timestamp, is_decimal,
  is_nonempty,
}
use agf_orchestrator.Roadmap.Eligible.{is_eligible}
use agf_orchestrator.Scheduler.Models.{
  SchedulerState, created, running, paused, validate, transition, move,
}
use agf_orchestrator.Scheduler.Safety.{
  SafetyDecision, ProgressObservation, completed, blocked, is_unfinished, invalid_observation,
  assess_progress, assess_roadmap,
}
use agf_orchestrator.Scheduler.Safety.Gates.{
  is_live, is_stalled, is_ready, assess_progress_blocked, assess_roadmap_lem,
}
use agf_orchestrator.Scheduler.Store.{
  absent, document, Identity, load, load_unlocked, save_unlocked, validate_identity, create,
  transition_stored,
}
use agf_orchestrator.Scheduler.Store.Laws.{load_document, transition_stored_again}
use agf_orchestrator.Scheduler.Commands.{start, pause, allowed_command, command_result, execute}
use agf_orchestrator.Scheduler.Commands.Lifecycle.{transition_stored_moves, execute_allowed}
use agf_orchestrator.Scheduler.Commands.Race.{execute_start_resumes}
use agf_orchestrator.Tests.Roadmaps.{done, done_valid}
use agf_orchestrator.Tests.Schedulers.{state, valid_created, valid_paused}

abbrev before : SchedulerState
before = state created none

abbrev after : SchedulerState
after = move before running

moves : transition_stored none (document before) running ≡ (ok after, document after)
moves =
    transition_stored_moves (document before) before running (load_document before valid_created)
      refl refl

full : transition_stored (some "No space left on device") (document before) running ≡ (
  raise (scheduler_store_error "scheduler state write failed: No space left on device"),
  document before,
)
unfolding transition_stored load transition validate is_identifier is_digit_text is_digit
    is_timestamp is_decimal has_text len_le is_space is_nonempty
full = refl

transition_stored_again_example :
    (load (document after) ≡ ok after)
    × (running ≡ running)
    × (transition_stored (some "No space left on device") (document after) running
        ≡ (ok after, document after))
transition_stored_again_example =
    transition_stored_again none (some "No space left on device") (document before) (document after)
      running after moves

abbrev store : Identity
store = record { project_id = "project-1"; scheduler_id = "scheduler-1" }

creates : create store none absent before ≡ (ok before, document before)
unfolding create validate_identity validate is_identifier is_digit_text is_digit is_timestamp
    is_decimal has_text len_le is_space is_nonempty load_unlocked save_unlocked
creates = refl

foreign :
    create (record { project_id = "project-2"; scheduler_id = "scheduler-1" }) none absent before
    ≡ (raise (scheduler_store_error "scheduler state identity does not match store"), absent)
unfolding create validate_identity validate is_identifier is_digit_text is_digit is_timestamp
    is_decimal has_text len_le is_space is_nonempty load_unlocked
foreign = refl

execute_allowed_example :
    execute none (document before) (document before) start
    ≡ (ok (command_result start after true), document after)
execute_allowed_example =
    execute_allowed (document before) start before running (load_document before valid_created) refl
      refl

refused :
    execute none (document before) (document before) pause
    ≡ (raise (scheduler_command_error "command pause is not allowed from CREATED"), document before)
unfolding execute load validate is_identifier is_digit_text is_digit is_timestamp is_decimal
    has_text len_le is_space is_nonempty
refused = refl

-- Two other commands, START and PAUSE, ran between the two locks.
execute_start_resumes_example :
    (execute none (document before) (document (state paused none)) start ≡ (
      ok (command_result start (move (state paused none) running) true),
      document (move (state paused none) running),
    ))
    × (allowed_command start paused ≡ false)
execute_start_resumes_example =
    execute_start_resumes (document before) (document (state paused none)) before
      (state paused none) (load_document before valid_created) refl
      (load_document (state paused none) valid_paused) refl

abbrev seen : ProgressObservation
seen = record {
  scheduler_id = "scheduler-1";
  status = running;
  current_item_id = some "item-b";
  event_sequence = pos 4;
}

none_invalid : any invalid_observation (seen ∷ seen ∷ []) ≡ false
unfolding is_nonempty
none_invalid = refl

assess_progress_blocked_example :
    (d : SafetyDecision) × (assess_progress (seen ∷ seen ∷ []) (pos 2) ≡ ok d)
    × ((d.status ≡ blocked)
        ↔ ((is_live running && is_stalled seen (seen ∷ seen ∷ []) (pos 2)) ≡ true))
assess_progress_blocked_example =
    assess_progress_blocked (seen ∷ seen ∷ []) (seen ∷ []) seen (pos 2) refl none_invalid refl

assess_roadmap_lem_example :
    (d : SafetyDecision) × (assess_roadmap done ≡ ok d)
    × ((d.status ≡ completed) ↔ (any is_unfinished done.items ≡ false))
    × ((d.status ≡ blocked)
        ↔ ((any is_ready done.items ≡ true) × (any (is_eligible done.items) done.items ≡ false)))
assess_roadmap_lem_example = assess_roadmap_lem done done_valid
