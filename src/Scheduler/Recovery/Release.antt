-- ===== src/Scheduler/Recovery/Release.antt =====
-- What recovery releases, and where it leaves the lifecycle.
use agf_orchestrator.Base.{
  ◌≡◌, ◌≢◌, refl, sym, ◌∙◌, ap, Bool, true, false, not, Option, none, some, String, arith,
  Bool-cases, inl, inr, ◌⊎◌,
}
use agf_orchestrator.Base.Int.{pos, ◌+ℤ◌, +ℤ_parts}
use agf_orchestrator.Base.Raise.{ok}
use agf_orchestrator.Base.Text.{is_timestamp, str_lt}
use agf_orchestrator.Scheduler.Models.{
  SchedulerState, SchedulerStatus, running, paused, completed, cancelled, status_is, transitions,
  validate, transition, move,
}
use agf_orchestrator.Scheduler.Models.Lifecycle.{
  IsValid, validate-IsValid, validate_of_IsValid, transition_iff, is_terminal,
}
use agf_orchestrator.Scheduler.Recovery.{
  RecoveryDecision, RecoveryStatus, recovered, released, recover_lease, recover_expired_lease,
  recover_interruption,
}

released-IsValid : (s : SchedulerState) → IsValid s → IsValid (released s)
released-IsValid s v = ground (arith, +ℤ_parts s.event_sequence (pos 1))

released-validate : (s : SchedulerState) → validate s ≡ ok tt → validate (released s) ≡ ok tt
released-validate s h = validate_of_IsValid (released s) (released-IsValid s (validate-IsValid s h))

-- Whether a state holds a lease that has run out.
abbrev pub is_expired : SchedulerState → String → Bool
is_expired s now = elim s.lease_expires_at [ none ↦ false | some t ↦ not (str_lt now t) ]

recover_lease_lem :
    (s : SchedulerState) (now : String) (lease : Option String)
    → validate s ≡ ok tt
    → (d : RecoveryDecision) × (recover_lease s now lease ≡ ok d)
      × (elim lease [ none ↦ false | some t ↦ not (str_lt now t) ] ≡ true
          → (d.status ≡ recovered) × (d.state ≡ released s))
      × (elim lease [ none ↦ false | some t ↦ not (str_lt now t) ] ≡ false
          → (d.status ≢ recovered) × (d.state ≡ s))
unfolding recover_lease
recover_lease_lem s now none h = (_, refl, λ e. cc, λ e. ((λ k. cc), refl))
recover_lease_lem s now (some t) h = elim (Bool-cases (str_lt now t)) [
  | inl live ↦ (
    record { status = RecoveryStatus.active; state = s; reason = "lease is still active" },
    rw live,
    rw live (λ e. cc),
    λ e. ((λ k. cc), refl),
  )
  | inr over ↦ (
    record {
      status = recovered;
      state = released s;
      reason = "expired lease released; scheduler paused";
    },
    rw (over, released-validate s h),
    λ e. (refl, refl),
    rw over (λ e. cc),
  )
]

-- `recover_expired_lease` never raises on a valid state and a timestamp. It pauses the scheduler and
-- releases the lease exactly if the status is not HUMAN_REQUIRED and the lease does not expire after
-- `now`; otherwise it returns the state as it was.
pub recover_expired_lease_lem :
    (s : SchedulerState) (now : String)
    → validate s ≡ ok tt
    → is_timestamp now ≡ true
    → (d : RecoveryDecision) × (recover_expired_lease s now ≡ ok d)
      × (s.status ≢ SchedulerStatus.human_required
          → is_expired s now ≡ true
          → (d.status ≡ recovered)
            × (d.state ≡ record s {
              status = paused;
              current_item_id = none;
              lease_owner = none;
              lease_expires_at = none;
              event_sequence = s.event_sequence +ℤ pos 1;
            }))
      × ((s.status ≡ SchedulerStatus.human_required) ⊎ (is_expired s now ≡ false)
          → (d.status ≢ recovered) × (d.state ≡ s))
unfolding recover_expired_lease
recover_expired_lease_lem s now h t =
    elim (Bool-cases (status_is s.status SchedulerStatus.human_required)) [
      | inl human ↦ (
        record {
          status = RecoveryStatus.human_required;
          state = s;
          reason = "human intervention is required";
        },
        rw (h, t, human),
        λ ne e. absurd (ne (is_human s.status human)),
        λ e. ((λ k. cc), refl),
      )
      | inr other ↦
          let (d, run, releases, keeps) = recover_lease_lem s now s.lease_expires_at h in
          (d, rw (h, t, other) run, λ ne e. releases e, λ c. keeps (unexpired other c))
    ]
  where
    is_human :
        (st : SchedulerStatus)
        → status_is st SchedulerStatus.human_required ≡ true
        → st ≡ SchedulerStatus.human_required
    is_human st e = ground arith

    unexpired :
        status_is s.status SchedulerStatus.human_required ≡ false
        → (s.status ≡ SchedulerStatus.human_required) ⊎ (is_expired s now ≡ false)
        → is_expired s now ≡ false
    unexpired o (inl e) = absurd (ground arith)
    unexpired o (inr e) = e

-- A valid state that is COMPLETED, FAILED or CANCELLED and whose lease has expired has no `transition`
-- that succeeds, to any status. At a timestamp, `recover_expired_lease` makes it PAUSED, and a
-- `transition` of the recovered state to RUNNING succeeds and gives a RUNNING state.
pub recover_expired_lease_revives :
    (s : SchedulerState) (now : String)
    → validate s ≡ ok tt
    → is_timestamp now ≡ true
    → (s.status ≡ completed) ⊎ ((s.status ≡ SchedulerStatus.failed) ⊎ (s.status ≡ cancelled))
    → is_expired s now ≡ true
    → ((to : SchedulerStatus) (u : SchedulerState) → transition s to ≢ ok u)
      × (d : RecoveryDecision) × (recover_expired_lease s now ≡ ok d)
      × (d.state.status ≡ paused)
      × (u : SchedulerState) × (transition d.state running ≡ ok u)
      × (u.status ≡ running)
recover_expired_lease_revives s now h t terminal expired =
    let (d, run, releases, _) = recover_expired_lease_lem s now h t in
    let (_, same) = releases (live terminal) expired in
    let pauses : d.state.status ≡ paused = ap (λ (w : SchedulerState). w.status) same in
    let valid : validate d.state ≡ ok tt = rw same (released-validate s h) in
    (
      λ to u step.
          (let (_, edge, _) = (transition_iff s u to).0 step in
            let closed = no_edge terminal to in cc),
      d,
      run,
      pauses,
      move d.state running,
      (transition_iff d.state (move d.state running) running).1
          (valid, ap (λ st. transitions st running) pauses, refl),
      refl,
    )
  where
    live :
        (s.status ≡ completed) ⊎ ((s.status ≡ SchedulerStatus.failed) ⊎ (s.status ≡ cancelled))
        → s.status ≢ SchedulerStatus.human_required
    live (inl e) k = let bad : completed ≡ SchedulerStatus.human_required = sym e ∙ k in cc
    live (inr (inl e)) k =
        let bad : SchedulerStatus.failed ≡ SchedulerStatus.human_required = sym e ∙ k in cc
    live (inr (inr e)) k = let bad : cancelled ≡ SchedulerStatus.human_required = sym e ∙ k in cc

    none_from : (st to : SchedulerStatus) → is_terminal st ≡ true → transitions st to ≡ false
    none_from st to e = ground arith

    no_edge :
        (s.status ≡ completed) ⊎ ((s.status ≡ SchedulerStatus.failed) ⊎ (s.status ≡ cancelled))
        → (to : SchedulerStatus) → transitions s.status to ≡ false
    no_edge (inl e) to = none_from s.status to (ap is_terminal e)
    no_edge (inr (inl e)) to = none_from s.status to (ap is_terminal e)
    no_edge (inr (inr e)) to = none_from s.status to (ap is_terminal e)

-- `recover_interruption` never raises on a valid state; it pauses a RUNNING scheduler by a step of the
-- lifecycle and leaves every other state as it was.
pub recover_interruption_lem :
    (s : SchedulerState)
    → validate s ≡ ok tt
    → (d : RecoveryDecision) × (recover_interruption s ≡ ok d)
      × (s.status ≡ running → (d.status ≡ recovered) × (transition s paused ≡ ok d.state))
      × (s.status ≢ running → (d.status ≢ recovered) × (d.state ≡ s))
unfolding recover_interruption
recover_interruption_lem s h =
    elim (Bool-cases (status_is s.status SchedulerStatus.human_required)) [
      | inl human ↦ (
        record {
          status = RecoveryStatus.human_required;
          state = s;
          reason = "human intervention is required";
        },
        rw (h, human),
        λ runs. absurd (ground arith),
        λ ne. ((λ k. cc), refl),
      )
      | inr other ↦ elim (Bool-cases (status_is s.status running)) [
        | inr stopped ↦ (
          record {
            status = RecoveryStatus.no_lease;
            state = s;
            reason = "scheduler is not RUNNING";
          },
          rw (h, other, stopped),
          λ runs. absurd (ground arith),
          λ ne. ((λ k. cc), refl),
        )
        | inl runs ↦
            let paused_ok = pauses runs in
            (
              record {
                status = recovered;
                state = move s paused;
                reason = "interruption recovered; scheduler paused";
              },
              rw (h, other, runs, paused_ok),
              λ e. (refl, paused_ok),
              λ ne. absurd (ne (is_running s.status runs)),
            )
      ]
    ]
  where
    is_running : (st : SchedulerStatus) → status_is st running ≡ true → st ≡ running
    is_running st e = ground arith

    pauses : status_is s.status running ≡ true → transition s paused ≡ ok (move s paused)
    pauses runs =
        (transition_iff s (move s paused) paused).1
          (h, ap (λ st. transitions st paused) (is_running s.status runs), refl)
