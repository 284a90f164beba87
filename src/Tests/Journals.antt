-- ===== src/Tests/Journals.antt =====
-- The journal (src/agf_orchestrator/scheduler_journal.py) on concrete inputs.
use agf_orchestrator.Base.{◌≡◌, ◌≢◌, ◌⊎◌, refl, true, none, some, [], ◌∷◌, String}
use agf_orchestrator.Base.Int.{pos}
use agf_orchestrator.Base.Raise.{Error, ok, raise}
use agf_orchestrator.Base.Text.{
  has_text, len_le, is_space, is_timestamp, is_decimal, is_nonempty, has_secret, is_record_id,
  starts_with,
}
use agf_orchestrator.Scheduler.Loop.{SchedulerEvent}
use agf_orchestrator.Scheduler.Store.{Identity}
use agf_orchestrator.Scheduler.Journal.Records.{
  InboxItem, journal_text, check_event, validate_inbox,
}
use agf_orchestrator.Scheduler.Journal.{
  JournalFile, absent, records, load_unlocked, save_unlocked, append_event, add_inbox,
  resolve_inbox, resolved_item,
}
use agf_orchestrator.Scheduler.Journal.Sound.{HoldsSound}
use agf_orchestrator.Scheduler.Journal.Settle.{
  IsResolved, resolve_inbox-IsResolved, resolve_inbox_again,
}
use agf_orchestrator.Scheduler.Journal.Reach.{Step, Reach, Reach-HoldsSound}

abbrev store : Identity
store = record { project_id = "project-1"; scheduler_id = "scheduler-1" }

abbrev event : SchedulerEvent
event = record {
  event_id = "event-000001";
  sequence = pos 1;
  event_type = "STATE_TRANSITION";
  from_status = "CREATED";
  to_status = "RUNNING";
  summary = "scheduler step completed";
}

abbrev question : InboxItem
question = record {
  inbox_id = "inbox-000001";
  project_id = "project-1";
  scheduler_id = "scheduler-1";
  title = "Approve";
  summary = "A decision is needed";
  required_action = "Approve or reject";
  status = "OPEN";
  decision_id = "";
  task_id = "";
  risk_class = "";
  failed_gates = [];
  pending_gates = [];
  evidence_refs = [];
  policy_id = "";
  policy_hash = "";
  uncertainty_kind = "";
  decision_status = "";
  authorization_status = "";
  blocking_reasons = [];
  resolution_actor = "";
  resolution_outcome = "";
  resolved_at = "";
}

abbrev one_event : JournalFile
one_event = records (record { events = event ∷ []; inbox = [] })

abbrev asked : JournalFile
asked = records (record { events = event ∷ []; inbox = question ∷ [] })

abbrev answer : InboxItem
answer = resolved_item question "owner" "approved" "2025-01-03T00:00:00Z"

abbrev answered : JournalFile
answered = records (record { events = event ∷ []; inbox = answer ∷ [] })

appends : append_event store none absent event ≡ (ok event, one_event)
unfolding append_event check_event has_text len_le is_space has_secret is_record_id load_unlocked
    save_unlocked
appends = refl

adds : add_inbox store none one_event question ≡ (ok question, asked)
unfolding add_inbox check_event validate_inbox has_text len_le is_space has_secret is_record_id
    load_unlocked save_unlocked starts_with is_nonempty
adds = refl

now_valid : is_timestamp "2025-01-03T00:00:00Z" ≡ true
unfolding is_timestamp is_decimal
now_valid = refl

resolves :
    resolve_inbox store none "2025-01-03T00:00:00Z" asked "inbox-000001" "owner" "approved"
    ≡ (ok answer, answered)
unfolding resolve_inbox journal_text check_event validate_inbox has_text len_le is_space has_secret
    is_record_id load_unlocked save_unlocked starts_with is_nonempty
resolves = refl

steps_to_asked : Reach store absent asked
steps_to_asked =
    Reach.next (Reach.next Reach.here (Step.appended none event event appends))
      (Step.added none question question adds)

Reach-HoldsSound_example : HoldsSound store answered
Reach-HoldsSound_example = Reach-HoldsSound store answered (
    Reach.next steps_to_asked (
      Step.resolved none "2025-01-03T00:00:00Z" "inbox-000001" "owner" "approved" answer now_valid
        resolves))

resolve_inbox-IsResolved_example :
    IsResolved store answered "inbox-000001" "owner" "approved" answer
resolve_inbox-IsResolved_example =
    resolve_inbox-IsResolved store none "2025-01-03T00:00:00Z" asked answered "inbox-000001" "owner"
      "approved" answer (Reach-HoldsSound store asked steps_to_asked) now_valid resolves

resolve_inbox_again_example :
    (resolve_inbox store
        (some "No space left on device")
        "2025-01-04T00:00:00Z"
        answered
        "inbox-000001"
        "owner"
        "approved"
      ≡ (ok answer, answered))
    × ((actor' outcome' : String)
        → ("owner" ≢ actor') ⊎ ("approved" ≢ outcome')
        → (e : Error) × (resolve_inbox store
              (some "No space left on device")
              "2025-01-04T00:00:00Z"
              answered
              "inbox-000001"
              actor'
              outcome'
            ≡ (raise e, answered)))
resolve_inbox_again_example =
    resolve_inbox_again store none (some "No space left on device") "2025-01-03T00:00:00Z"
      "2025-01-04T00:00:00Z" asked answered "inbox-000001" "owner" "approved" answer
      (Reach-HoldsSound store asked steps_to_asked) now_valid resolves
