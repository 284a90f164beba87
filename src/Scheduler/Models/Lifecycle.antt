-- ===== src/Scheduler/Models/Lifecycle.antt =====
-- What `validate` guarantees of a scheduler's state, and what `transition` keeps.
use agf_orchestrator.Base.{
  ◌≡◌, ◌≢◌, refl, ap, ◌∙◌, ◌↔◌, Bool, true, false, List, [], ◌∷◌, arith, All, Bool-cases, inl, inr,
}
use agf_orchestrator.Base.Int.{pos, +ℤ_parts}
use agf_orchestrator.Base.Raise.{
  Result, ok, require_all-eq-ok, require_all_of_All, >>=-eq-ok, ◌>>=◌,
}
use agf_orchestrator.Scheduler.Models.{
  SchedulerStatus, running, completed, failed, cancelled, SchedulerState, transitions, validation,
  validate, move, transition,
}

SchedulerStatus-discrete : Discrete SchedulerStatus
SchedulerStatus-discrete = hlevel

-- Every test of `validate` passes.
abbrev pub IsValid : SchedulerState → Type 0
IsValid s = All (λ c. c.0 ≡ true) (validation s)

pub validate-IsValid : (s : SchedulerState) → validate s ≡ ok tt → IsValid s
unfolding validate
validate-IsValid s h = require_all-eq-ok (validation s) h

pub validate_of_IsValid : (s : SchedulerState) → IsValid s → validate s ≡ ok tt
unfolding validate
validate_of_IsValid s h = require_all_of_All (validation s) h

IsValid-move : (s : SchedulerState) (to : SchedulerStatus) → IsValid s → IsValid (move s to)
IsValid-move s to h = ground (arith, +ℤ_parts s.event_sequence (pos 1))

-- A transition succeeds exactly on a valid state and along an edge of `_TRANSITIONS`. Its result is then
-- the same state with the new status and the next event number.
pub transition_iff :
    (s t : SchedulerState) (to : SchedulerStatus)
    → (transition s to ≡ ok t)
      ↔ ((validate s ≡ ok tt) × (transitions s.status to ≡ true) × (move s to ≡ t))
unfolding transition
transition_iff s t to = (
  λ h.
      let (_, valid, rest) = >>=-eq-ok (validate s) _ h in
      elim (Bool-cases (transitions s.status to)) [
        | inl edge ↦ let h' = rw edge at rest in (valid, edge, cc)
        | inr none_such ↦ let h' = rw none_such at rest in absurd (cc)
      ],
  λ (valid, edge, same). rw (valid, edge, same),
)

-- A state that `transition` returns is valid again.
pub transition-validate :
    (s t : SchedulerState) (to : SchedulerStatus) → transition s to ≡ ok t → validate t ≡ ok tt
transition-validate s t to h =
    let (valid, _, same) = (transition_iff s t to).0 h in
    rw (← same) (validate_of_IsValid (move s to) (IsValid-move s to (validate-IsValid s valid)))

-- A sequence of transitions; it stops at the first that is refused.
unfoldable pub run : SchedulerState → List SchedulerStatus → Result SchedulerState
run s [] = ok s
run s (to ∷ tos) = transition s to >>= λ t. run t tos

abbrev pub is_terminal : SchedulerStatus → Bool
is_terminal completed = true
is_terminal failed = true
is_terminal cancelled = true
is_terminal _ = false

no_edge_of_terminal :
    (from to : SchedulerStatus) → is_terminal from ≡ true → transitions from to ≡ false
no_edge_of_terminal completed to h = ground arith
no_edge_of_terminal failed to h = ground arith
no_edge_of_terminal cancelled to h = ground arith
no_edge_of_terminal _ to h = ground arith

-- From a completed, failed or cancelled state no sequence of transitions leads anywhere else.
pub run_of_terminal :
    (s t : SchedulerState) (tos : List SchedulerStatus)
    → is_terminal s.status ≡ true
    → run s tos ≡ ok t
    → (s ≡ t) × (tos ≡ [])
unfolding run
run_of_terminal s t [] h e = (cc, refl)
run_of_terminal s t (to ∷ tos) h e =
    let (u, first, _) = >>=-eq-ok (transition s to) (λ w. run w tos) e in
    let edge = ((transition_iff s u to).0 first).1 in
    let blocked = no_edge_of_terminal s.status to h in absurd (cc)

-- Whether a sequence of statuses holds RUNNING.
abbrev pub has_running : List SchedulerStatus → Bool
has_running [] = false
has_running (running ∷ tos) = true
has_running (_ ∷ tos) = has_running tos

has_running-cons :
    (from : SchedulerStatus) (tos : List SchedulerStatus)
    → has_running tos ≡ true
    → has_running (from ∷ tos) ≡ true
has_running-cons running tos h = refl
has_running-cons _ tos h = h

running_before_completed :
    (from to : SchedulerStatus) (tos : List SchedulerStatus)
    → transitions from to ≡ true
    → to ≡ completed
    → has_running (from ∷ tos) ≡ true
running_before_completed running to tos edge e = refl
running_before_completed _ to tos edge e = ground arith

-- A scheduler that was not completed is COMPLETED only after it was RUNNING.
pub completed_needs_running :
    (s t : SchedulerState) (tos : List SchedulerStatus)
    → s.status ≢ completed
    → run s tos ≡ ok t
    → t.status ≡ completed
    → has_running (s.status ∷ tos) ≡ true
unfolding run
completed_needs_running s t [] start e done = let same : s ≡ t = cc in absurd (start (rw same done))
completed_needs_running s t (to ∷ tos) start e done =
    let (u, first, rest) = >>=-eq-ok (transition s to) (λ w. run w tos) e in
    let (_, edge, moved) = (transition_iff s u to).0 first in
    let status : to ≡ u.status = ap (λ (w : SchedulerState). w.status) moved in
    elim (SchedulerStatus-discrete to completed) [
      | yes finished ↦ running_before_completed s.status to (to ∷ tos) edge finished
      | no other ↦
          has_running-cons s.status (to ∷ tos)
            (rw status (completed_needs_running u t tos (λ c. other (status ∙ c)) rest done))
    ]
