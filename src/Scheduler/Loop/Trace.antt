-- ===== src/Scheduler/Loop/Trace.antt =====
-- What a bounded run records and where it ends.
use agf_orchestrator.Base.{
  ℕ, zero, suc, ◌≤◌, ◌≡◌, refl, ap, sym, subst, ◌∙◌, true, false, ◌&&◌, arith, Bool-cases, inl, inr,
  ◌⊎◌, List, [], ◌∷◌, ◌++◌, length, length-append,
}
use mathlib.Core.List.{append-nil, append_assoc}
use agf_orchestrator.Base.Int.{+ℤ_zero, +ℤ_suc, ≡→eq_ℤ, ℤ, pos, pos_part, ◌+ℤ◌, leb_ℤ, eq_ℤ→≡, ◌≤ℤ◌}
use agf_orchestrator.Base.Raise.{Result, ok, raise, ok-injective, >>=-eq-ok}
use agf_orchestrator.Base.Text.{str_eq_iff}
use agf_orchestrator.Scheduler.Models.{SchedulerState, status_value, validate}
use agf_orchestrator.Scheduler.Loop.{
  is_stop, loop_result, SchedulerEvent, LoopResult, step_event, guarded, check_step, rounds,
  run_bounded,
}

-- What the loop checks of each state that a step returned.
abbrev IsStep : SchedulerState → SchedulerState → SchedulerState → Type 0
IsStep start previous current =
    (validate current ≡ ok tt)
    × (current.project_id ≡ start.project_id)
    × (current.scheduler_id ≡ start.scheduler_id)
    × (current.event_sequence ≡ previous.event_sequence +ℤ pos 1)

check_step-IsStep :
    (start previous current : SchedulerState)
    → check_step start previous current ≡ ok tt
    → IsStep start previous current
unfolding check_step
check_step-IsStep start previous current h =
    let (_, valid, rest) = >>=-eq-ok (validate current) _ h in
    (
      valid,
      ground (arith, str_eq_iff current.project_id start.project_id),
      ground (arith, str_eq_iff current.scheduler_id start.scheduler_id),
      eq_ℤ→≡ current.event_sequence (previous.event_sequence +ℤ pos 1) (ground arith),
    )

-- The steps that a run took, from a state to a state: the step function's own results, each checked and
-- each recorded by an event with the two statuses and the next number.
pub data Trace (start : SchedulerState) (step : SchedulerState → Result SchedulerState)
    : ℕ → SchedulerState → SchedulerState → List SchedulerEvent → Type 0 where
  done : {n : ℕ} {s : SchedulerState} → Trace start step n s s []
  more :
      {n : ℕ} {s t u : SchedulerState} {events : List SchedulerEvent}
      → is_stop s.status ≡ false
      → step s ≡ ok t
      → IsStep start s t
      → Trace start step (suc n) t u events
      → Trace start step n s u (
          record (step_event (suc n) s t) {
            sequence = pos (suc n);
            from_status = status_value s.status;
            to_status = status_value t.status;
          }
          ∷ events)

module _ (start : SchedulerState) (step : SchedulerState → Result SchedulerState) where
  -- How the rounds that are left end.
  abbrev Ends :
      ℕ → SchedulerState → List SchedulerEvent → SchedulerState × List SchedulerEvent → Type 0
  Ends left s events (t, out) =
      (new : List SchedulerEvent) × (out ≡ events ++ new)
      × Trace start step (length events) s t new
      × ((is_stop t.status ≡ true) ⊎ (length new ≡ left))
      × (length new ≤ left)

  one_more :
      (left : ℕ) (s t : SchedulerState) (events : List SchedulerEvent)
      (r : SchedulerState × List SchedulerEvent)
      → is_stop s.status ≡ false
      → step s ≡ ok t
      → IsStep start s t
      → Ends left t (events ++ step_event (suc (length events)) s t ∷ []) r
      → Ends (suc left) s events r
  one_more left s t events (u, out) live taken checked (new, e, trace, ends, bound) = (
    step_event (suc (length events)) s t ∷ new,
    e ∙ append_assoc events (step_event (suc (length events)) s t ∷ []) new,
    more live taken checked (
        subst (λ n. Trace start step n t u new)
          (length-append events (step_event (suc (length events)) s t ∷ []) ∙ (omega arith)) trace),
    later ends,
    omega arith,
  )
    where
      later :
          (is_stop u.status ≡ true) ⊎ (length new ≡ left)
          → (is_stop u.status ≡ true) ⊎ (suc (length new) ≡ suc left)
      later (inl stop) = inl stop
      later (inr all_used) = inr (ap suc all_used)

  guarded-eq-ok : (r : Result SchedulerState) (t : SchedulerState) → guarded r ≡ ok t → r ≡ ok t
  guarded-eq-ok (ok s) t h = h
  guarded-eq-ok (raise e) t h = cc

  rounds-Ends :
      (left : ℕ) (s : SchedulerState) (events : List SchedulerEvent)
      (r : SchedulerState × List SchedulerEvent)
      → rounds start step left s events ≡ ok r
      → Ends left s events r
  unfolding rounds
  rounds-Ends zero s events r h =
      subst (Ends zero s events) (ok-injective (s, events) r h)
        ([], sym (append-nil events), done, inr refl, omega arith)
  rounds-Ends (suc left) s events r h = elim (Bool-cases (is_stop s.status)) [
    | inl stop ↦
        subst (Ends (suc left) s events) (ok-injective (s, events) r (rw (stop, rounds) at h))
          ([], sym (append-nil events), done, inl stop, omega arith)
    | inr live ↦
        let (t, taken, rest) = >>=-eq-ok (guarded (step s)) _ (rw (live, rounds) at h) in
        let (_, checked, rest') = >>=-eq-ok (check_step start s t) _ rest in
        one_more left s t events r live (guarded-eq-ok (step s) t taken)
          (check_step-IsStep start s t checked)
          (rounds-Ends left t (events ++ step_event (suc (length events)) s t ∷ []) r rest')
  ]

  -- What a run's result says of its steps.
  abbrev pub IsRun : ℤ → LoopResult → Type 0
  IsRun max_steps r =
      Trace start step 0 start r.state r.events
      × (r.steps ≡ length r.events)
      × (pos r.steps ≤ℤ max_steps)
      × (r.limit_reached ≡ false → is_stop r.state.status ≡ true)

  loop_result-IsRun :
      (max_steps : ℤ) (t : SchedulerState) (events : List SchedulerEvent)
      → (leb_ℤ (pos 1) max_steps && leb_ℤ max_steps (pos 100)) ≡ true
      → Ends (pos_part max_steps) start [] (t, events)
      → IsRun max_steps (loop_result max_steps (t, events))
  loop_result-IsRun max_steps t events fits (new, e, trace, ends, bound) = (
    subst (Trace start step 0 start t) (sym e) trace,
    refl,
    (let k = ap length e in ground arith),
    λ unused. elim ends [
      | inl stop ↦ stop
      | inr all_used ↦
          let k : length events ≡ length new = ap length e in
          absurd (ground (arith, ≡→eq_ℤ (pos (length events)) max_steps))
    ],
  )

  -- A run of `run_bounded` that returns took the steps that its events record, each a checked result of
  -- the step function, no more than `max_steps`; if it did not use them all, its last status is a stop
  -- state.
  pub run_bounded-IsRun :
      (max_steps : ℤ) (r : LoopResult) → run_bounded start step max_steps ≡ ok r → IsRun max_steps r
  unfolding run_bounded
  run_bounded-IsRun max_steps r h =
      let (_, _, h₁) = >>=-eq-ok (validate start) _ h in
      elim (Bool-cases (leb_ℤ (pos 1) max_steps && leb_ℤ max_steps (pos 100))) [
        | inl fits ↦
            let ((t, events), all_rounds, same) =
              >>=-eq-ok (rounds start step (pos_part max_steps) start []) _ (rw fits at h₁) in
            subst (IsRun max_steps) (ok-injective (loop_result max_steps (t, events)) r same) (
              loop_result-IsRun max_steps t events fits
                (rounds-Ends (pos_part max_steps) start [] (t, events) all_rounds))
        | inr outside ↦ let h₂ = rw outside at h₁ in absurd (cc)
      ]

-- The steps of a trace each advance the event number by one and keep a valid state of the same scheduler.
Trace-keeps :
    (start : SchedulerState) (step : SchedulerState → Result SchedulerState) {n : ℕ}
    (s t : SchedulerState) (events : List SchedulerEvent)
    → Trace start step n s t events
    → validate s ≡ ok tt
    → s.project_id ≡ start.project_id
    → s.scheduler_id ≡ start.scheduler_id
    → (validate t ≡ ok tt)
      × (t.project_id ≡ start.project_id)
      × (t.scheduler_id ≡ start.scheduler_id)
      × (t.event_sequence ≡ s.event_sequence +ℤ pos (length events))
Trace-keeps start step s _ _ done valid project scheduler =
    (valid, project, scheduler, +ℤ_zero s.event_sequence)
Trace-keeps start step s t _ (more {t = m} {events = events} live taken (v, p, q, e) rest) valid
      project scheduler =
    let (v', p', q', e') = Trace-keeps start step m t events rest v p q in
    (v', p', q', +ℤ_suc s.event_sequence m.event_sequence t.event_sequence (length events) e e')

-- A run of `run_bounded` that returns ends in a valid state of the same project and scheduler, whose event
-- number has grown by the number of steps; they are no more than `max_steps`, and if the limit was not
-- reached the status is a stop state.
pub run_bounded_lem :
    (start : SchedulerState) (step : SchedulerState → Result SchedulerState) (max_steps : ℤ)
    (r : LoopResult)
    → run_bounded start step max_steps ≡ ok r
    → (validate r.state ≡ ok tt)
      × (r.state.project_id ≡ start.project_id)
      × (r.state.scheduler_id ≡ start.scheduler_id)
      × (r.state.event_sequence ≡ start.event_sequence +ℤ pos r.steps)
      × (pos r.steps ≤ℤ max_steps)
      × (r.limit_reached ≡ false → is_stop r.state.status ≡ true)
unfolding run_bounded
run_bounded_lem start step max_steps r h =
    let (trace, count, bound, ends) = run_bounded-IsRun start step max_steps r h in
    let (_, valid, _) = >>=-eq-ok (validate start) _ h in
    let (v, p, q, e) = Trace-keeps start step start r.state r.events trace valid refl refl in
    (
      v,
      p,
      q,
      subst (λ n. r.state.event_sequence ≡ start.event_sequence +ℤ pos n) (sym count) e,
      bound,
      ends,
    )
