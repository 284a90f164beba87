-- ===== src/Tests/Sessions.antt =====
-- Sessions (src/agf_orchestrator/session_manager.py) on concrete inputs.
use agf_orchestrator.Base.{◌≡◌, refl, true, none, some, List, [], ◌∷◌, String}
use agf_orchestrator.Base.Raise.{ok}
use agf_orchestrator.Session.Models.{
  SessionStatus, planning, ready, executing, reviewing, correcting, compliance, delivering,
  pr_ready, completed, allowed_transitions, Session,
}
use agf_orchestrator.Session.Models.Graph.{visits, is_path, completed_visits}
use agf_orchestrator.Session.Manager.{document, Move, Call, load, append_event, save, transition}
use agf_orchestrator.Session.Manager.History.{transition_again}
use agf_orchestrator.Session.Manager.Log.{IsLogged, transition-IsLogged}

abbrev session : SessionStatus → String → Session
session status stage = record {
  session_id = "session-1";
  project_id = "project-1";
  goal = "a goal";
  created_at = "2025-01-01T00:00:00Z";
  updated_at = "2025-01-01T00:00:00Z";
  base_sha = "0123456789012345678901234567890123456789";
  current_stage = stage;
  status = status;
  plan_path = none;
  execution_report_path = none;
  review_report_path = none;
  compliance_report_path = none;
  delivery_report_path = none;
  delivery_branch = none;
  pr_url = none;
  blocking_issues = [];
  required_human_actions = [];
  events = [];
  attempts = [];
  artifact_hashes = [];
  schema_version = "1.0";
}

abbrev call : Call
call = record { now = "2025-01-02T00:00:00Z"; uuid = "0a"; disk = none }

abbrev later : Call
later = record { now = "2025-01-03T00:00:00Z"; uuid = "0b"; disk = some "No space left on device" }

abbrev to_ready : Move
to_ready = record {
  to_status = ready;
  summary = "";
  actor = "SYSTEM";
  evidence_refs = [];
  blocking_issues = [];
  operation_id = none;
}

abbrev planned : Session
planned = session planning "PLANNING"

moves :
    transition call (document planned) to_ready
    ≡ (ok (append_event call planned to_ready), document (append_event call planned to_ready))
unfolding transition allowed_transitions save
moves = refl

transition_again_example :
    transition later (document (append_event call planned to_ready)) to_ready
    ≡ (ok (append_event call planned to_ready), document (append_event call planned to_ready))
transition_again_example =
    transition_again call later (document planned) (document (append_event call planned to_ready))
      to_ready (append_event call planned to_ready) moves

planned-IsLogged : IsLogged planned
planned-IsLogged = (tt, (λ e h. cc), refl)

transition-IsLogged_example :
    IsLogged (append_event call planned to_ready)
    × (load (document (append_event call planned to_ready))
        ≡ ok (append_event call planned to_ready))
transition-IsLogged_example =
    transition-IsLogged call (document planned) (document (append_event call planned to_ready))
      to_ready planned (append_event call planned to_ready) refl planned-IsLogged moves

abbrev finished : Session
finished = record (session completed "COMPLETED") {
  events =
      record {
        event_id = "event-0a";
        operation_id = "transition:READY";
        timestamp = "2025-01-01T00:00:00Z";
        session_id = "session-1";
        event_type = "PLANNING_TO_READY";
        from_status = some "PLANNING";
        to_status = "READY";
        summary = "READY";
        evidence_refs = [];
        blocking_issues = [];
        actor = "SYSTEM";
      }
      ∷ [];
}

replayed : transition call (document finished) to_ready ≡ (ok finished, document finished)
unfolding transition save
replayed = refl

abbrev route : List SessionStatus
route =
    ready ∷ executing ∷ reviewing ∷ correcting ∷ reviewing ∷ compliance ∷ delivering ∷ pr_ready
    ∷ completed ∷ []

route_allowed : is_path planning route ≡ true
unfolding allowed_transitions
route_allowed = refl

completed_visits_example : visits route compliance ≡ true
completed_visits_example = completed_visits route compliance route_allowed refl refl
