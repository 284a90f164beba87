-- ===== src/Session/Manager.antt =====
-- The transitions of stored sessions (src/agf_orchestrator/session_manager.py, session_store.py). The
-- operations hold the session's lock and then the project's. The one file is that of the identity asked for,
-- and the session in it bears that identity.
pub mod History
pub mod Log
use Prim.Native.String.{◌++◌, slice}
use agf_orchestrator.Base.{
  ℕ, Bool, true, false, not, Option, none, some, List, [], ◌∷◌, ◌++◌ as append, String, any,
  if◌then◌else◌,
}
use agf_orchestrator.Base.Raise.{
  Error, Result, ok, raise, session_store_error, session_manager_error, raise_if, ◌>>=◌, ◌>>◌,
}
use agf_orchestrator.Base.Text.{str_eq, str_mem, is_nonempty}
use agf_orchestrator.Session.Models.{
  SessionStatus, status_value, status_is, no_justified_work, completed, audited,
  allowed_transitions, SessionEvent, Session,
}
use agf_orchestrator.Scheduler.Store.{Disk}

-- A session's file is absent, is refused by `json.loads` or by `session_from_dict`, with the message of the
-- exception, or holds the document of a session.
pub data SessionFile : Type 0 where
  absent : SessionFile
  malformed : String → SessionFile
  document : Session → SessionFile

-- The arguments of `transition`.
pub record Move : Type 0 where
  pub to_status : SessionStatus
  pub summary : String
  pub actor : String
  pub evidence_refs : List String
  pub blocking_issues : List String
  pub operation_id : Option String

-- What a call takes from its surroundings: `_now()`, `uuid4().hex`, and whether a write goes through.
pub record Call : Type 0 where
  pub now : String
  pub uuid : String
  pub disk : Disk

abbrev pub Outcome : Type 0
Outcome = Result Session × SessionFile

-- `SessionStore.load`
abbrev pub load : SessionFile → Result Session
load absent = raise (session_store_error "session not found")
load (malformed reason) = raise (session_store_error reason)
load (document s) = ok s

abbrev pub actors : List String
actors =
    "DIRECTOR" ∷ "PLANNER" ∷ "IMPLEMENTER" ∷ "REVIEWER" ∷ "COMPLIANCE" ∷ "RELEASE_MANAGER" ∷ "HUMAN"
    ∷ "SYSTEM" ∷ []

-- `a or b`
abbrev or_else : String → String → String
or_else a b = if is_nonempty a then a else b

-- `operation_id or f"transition:{to_status.value}"`
abbrev pub operation_of : Move → String
operation_of m = elim m.operation_id [
  | none ↦ "transition:" ++ status_value m.to_status
  | some x ↦ or_else x ("transition:" ++ status_value m.to_status)
]

-- The event that `_append_event` records.
abbrev pub move_event : Call → Session → Move → SessionEvent
move_event call s m = record {
  event_id = "event-" ++ call.uuid;
  operation_id = operation_of m;
  timestamp = call.now;
  session_id = s.session_id;
  event_type = status_value s.status ++ "_TO_" ++ status_value m.to_status;
  from_status = some (status_value s.status);
  to_status = status_value m.to_status;
  summary = slice (or_else m.summary (status_value m.to_status)) 0 500;
  evidence_refs = m.evidence_refs;
  blocking_issues = m.blocking_issues;
  actor = m.actor;
}

-- `_append_event`
abbrev pub append_event : Call → Session → Move → Session
append_event call s m = record s {
  events = append s.events (move_event call s m ∷ []);
  status = m.to_status;
  current_stage = status_value m.to_status;
  updated_at = call.now;
  blocking_issues = m.blocking_issues;
}

-- `_save`, and the return of the saved session: the file is replaced whole or not at all.
unfoldable pub save : Disk → SessionFile → Session → Outcome
save none file s = (ok s, document s)
save (some reason) file s =
    (raise (session_manager_error "HUMAN_REQUIRED: transition persistence is uncertain"), file)

-- The checks of `transition` before it takes the locks.
unfoldable pub check_move : Move → Result (Unit {0})
check_move m = do
  raise_if (not (str_mem m.actor actors)) (session_manager_error "invalid event actor")
  raise_if (status_is m.to_status no_justified_work)
      (session_manager_error "no-work disposition requires bound assessment evidence")
  raise_if (status_is m.to_status completed)
      (session_manager_error "completion requires verified Objective acceptance evidence")
  raise_if (status_is m.to_status audited)
      (session_manager_error "audit disposition requires read-only evidence")

-- `any(event.operation_id == operation_id for event in session.events)`
abbrev pub has_operation : String → List SessionEvent → Bool
has_operation x = any (λ (e : SessionEvent). str_eq e.operation_id x)

-- The body of `transition` under the locks, on the session that it loaded.
unfoldable pub move_loaded : Call → SessionFile → Move → Session → Outcome
unfolding save
move_loaded call file m s =
    if has_operation (operation_of m) s.events
    then (ok s, file)
    else if status_is s.status m.to_status
    then (ok s, file)
    else if not (allowed_transitions s.status m.to_status)
    then (
      raise (
          session_manager_error (
            "invalid session transition: "
            ++ status_value s.status
            ++ " -> "
            ++ status_value m.to_status)),
      file,
    )
    else save call.disk file (append_event call s m)

-- `SessionManager.transition`
unfoldable pub transition : Call → SessionFile → Move → Outcome
unfolding check_move move_loaded
transition call file m = elim (check_move m >> load file) [
  | raise e ↦ (raise e, file)
  | ok s ↦ move_loaded call file m s
]
