-- ===== src/Scheduler/Journal/Records.antt =====
-- The records of the journal, their equality and their validation.
use agf_orchestrator.Base.{
  Bool, true, false, not, ◌&&◌, ◌||◌, List, [], ◌∷◌, String, leb, length, if◌then◌else◌,
}
use agf_orchestrator.Base.Int.{pos, ltb_ℤ, eq_ℤ}
use agf_orchestrator.Base.Raise.{Result, ok, scheduler_journal_error, raise_if, ◌>>◌}
use agf_orchestrator.Base.Text.{
  str_eq, str_mem, is_nonempty, is_bounded_text, has_secret, is_timestamp, starts_with,
  is_record_id, is_hex_text,
}
use agf_orchestrator.Scheduler.Loop.{SchedulerEvent}
use agf_orchestrator.Scheduler.Store.{Identity}

pub record InboxItem : Type 0 where
  pub inbox_id : String
  pub project_id : String
  pub scheduler_id : String
  pub title : String
  pub summary : String
  pub required_action : String
  pub status : String
  pub decision_id : String
  pub task_id : String
  pub risk_class : String
  pub failed_gates : List String
  pub pending_gates : List String
  pub evidence_refs : List String
  pub policy_id : String
  pub policy_hash : String
  pub uncertainty_kind : String
  pub decision_status : String
  pub authorization_status : String
  pub blocking_reasons : List String
  pub resolution_actor : String
  pub resolution_outcome : String
  pub resolved_at : String

-- `item.status == InboxStatus.OPEN`
abbrev pub is_open : InboxItem → Bool
is_open item = str_eq item.status "OPEN"

-- `existing == event`
unfoldable pub event_eq : SchedulerEvent → SchedulerEvent → Bool
event_eq a b =
    str_eq a.event_id b.event_id
    && (eq_ℤ a.sequence b.sequence
        && (str_eq a.event_type b.event_type
            && (str_eq a.from_status b.from_status
                && (str_eq a.to_status b.to_status && str_eq a.summary b.summary))))

texts_eq : List String → List String → Bool
texts_eq [] [] = true
texts_eq (x ∷ xs) (y ∷ ys) = str_eq x y && texts_eq xs ys
texts_eq _ _ = false

-- `existing == item`
unfoldable pub inbox_eq : InboxItem → InboxItem → Bool
unfolding texts_eq
inbox_eq a b =
    str_eq a.inbox_id b.inbox_id
    && (str_eq a.project_id b.project_id
        && (str_eq a.scheduler_id b.scheduler_id
            && (str_eq a.title b.title
                && (str_eq a.summary b.summary
                    && (str_eq a.required_action b.required_action
                        && (str_eq a.status b.status
                            && (str_eq a.decision_id b.decision_id
                                && (str_eq a.task_id b.task_id
                                    && (str_eq a.risk_class b.risk_class
                                        && (texts_eq a.failed_gates b.failed_gates
                                            && (texts_eq a.pending_gates b.pending_gates
                                                && (texts_eq a.evidence_refs b.evidence_refs
                                                    && (str_eq a.policy_id b.policy_id
                                                        && (str_eq a.policy_hash b.policy_hash
                                                            && (str_eq a.uncertainty_kind
                                                            b.uncertainty_kind
                                                            && (str_eq a.decision_status
                                                            b.decision_status
                                                            && (str_eq a.authorization_status
                                                            b.authorization_status
                                                            && (texts_eq a.blocking_reasons
                                                            b.blocking_reasons
                                                            && (str_eq a.resolution_actor
                                                            b.resolution_actor
                                                            && (str_eq a.resolution_outcome
                                                            b.resolution_outcome
                                                            && str_eq a.resolved_at
                                                            b.resolved_at))))))))))))))))))))

-- `_bounded_text`
unfoldable pub journal_text : String → Result (Unit {0})
journal_text value =
    raise_if (not (is_bounded_text value && not (has_secret value)))
      (scheduler_journal_error "journal text is invalid")

-- The loop of `_bounded_list`.
unfoldable journal_texts : List String → Result (Unit {0})
unfolding journal_text
journal_texts [] = ok tt
journal_texts (value ∷ values) = journal_text value >> journal_texts values

-- `_bounded_list`
unfoldable journal_list : List String → Result (Unit {0})
unfolding journal_texts
journal_list values = do
  raise_if (not (leb (length values) 500))
      (scheduler_journal_error "inbox evidence list is invalid")
  journal_texts values

-- The checks of `append_event` on the event alone.
unfoldable pub check_event : SchedulerEvent → Result (Unit {0})
unfolding journal_text
check_event event = do
  raise_if (not (is_record_id event.event_id) || ltb_ℤ event.sequence (pos 1))
      (scheduler_journal_error "event is invalid")
  journal_text event.summary

abbrev has_items : List String → Bool
has_items [] = false
has_items (x ∷ xs) = true

-- `structured`
abbrev is_structured : InboxItem → Bool
is_structured item =
    is_nonempty item.decision_id
    || (is_nonempty item.task_id
        || (is_nonempty item.risk_class
            || (has_items item.failed_gates
                || (has_items item.pending_gates
                    || (has_items item.evidence_refs
                        || (is_nonempty item.policy_id
                            || (is_nonempty item.policy_hash
                                || (is_nonempty item.decision_status
                                    || (is_nonempty item.authorization_status
                                        || has_items item.blocking_reasons)))))))))

-- The checks of `_validate_inbox` under `if item.decision_id`.
unfoldable pub validate_decision : InboxItem → Result (Unit {0})
unfolding journal_list journal_text
validate_decision item = do
  raise_if (not (is_hex_text "decision-" 32 item.decision_id))
      (scheduler_journal_error "inbox decision identity is invalid")
  raise_if
      (not (is_nonempty item.task_id)
        || not (str_mem item.risk_class ("MEDIUM" ∷ "HIGH" ∷ "CRITICAL" ∷ "UNKNOWN" ∷ [])))
      (scheduler_journal_error "inbox decision context is invalid")
  raise_if
      (is_nonempty item.decision_status
        && not (str_mem item.decision_status ("ELIGIBLE" ∷ "BLOCKED" ∷ [])))
      (scheduler_journal_error "inbox decision status is invalid")
  raise_if
      (is_nonempty item.authorization_status
        && not (str_mem item.authorization_status ("AUTHORIZED" ∷ "NOT_AUTHORIZED" ∷ [])))
      (scheduler_journal_error "inbox authorization status is invalid")
  raise_if (is_nonempty item.policy_hash && not (is_hex_text "" 64 item.policy_hash))
      (scheduler_journal_error "inbox policy hash is invalid")
  journal_list item.failed_gates
  journal_list item.pending_gates
  journal_list item.evidence_refs
  journal_list item.blocking_reasons
  journal_text item.task_id
  journal_text item.policy_id
  raise_if
      (is_nonempty item.uncertainty_kind
        && not (str_mem item.uncertainty_kind ("UNAVAILABLE" ∷ "DIVERGENT" ∷ "CONTRADICTORY" ∷ [])))
      (scheduler_journal_error "inbox uncertainty kind is invalid")

-- The checks of `_validate_inbox` on the resolution.
unfoldable pub validate_resolution : InboxItem → Result (Unit {0})
unfolding journal_text
validate_resolution item = do
  raise_if
      (is_open item
        && (is_nonempty item.resolution_actor
            || (is_nonempty item.resolution_outcome || is_nonempty item.resolved_at)))
      (scheduler_journal_error "open inbox cannot contain resolution")
  if str_eq item.status "RESOLVED"
      then (journal_text item.resolution_actor
          >> journal_text item.resolution_outcome
          >> raise_if (not (is_timestamp item.resolved_at))
              (scheduler_journal_error "resolved inbox timestamp is invalid"))
      else ok tt

-- The checks of `_validate_inbox` before those on a decision.
unfoldable pub validate_head : Identity → InboxItem → Result (Unit {0})
unfolding journal_text
validate_head store item = do
  raise_if
      (not (str_eq item.project_id store.project_id)
        || not (str_eq item.scheduler_id store.scheduler_id))
      (scheduler_journal_error "inbox identity does not match journal")
  raise_if (not (is_record_id item.inbox_id) || not (starts_with item.inbox_id "inbox-"))
      (scheduler_journal_error "inbox ID is invalid")
  raise_if (not (str_mem item.status ("OPEN" ∷ "RESOLVED" ∷ [])))
      (scheduler_journal_error "inbox status is invalid")
  journal_text item.title
  journal_text item.summary
  journal_text item.required_action
  raise_if (is_structured item && not (is_nonempty item.decision_id))
      (scheduler_journal_error "inbox decision identity is required")

-- `_validate_inbox`
unfoldable pub validate_inbox : Identity → InboxItem → Result (Unit {0})
unfolding validate_head validate_decision validate_resolution
validate_inbox store item = do
  validate_head store item
  if is_nonempty item.decision_id then validate_decision item else ok tt
  validate_resolution item
