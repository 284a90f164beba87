-- ===== src/Campaign/Runner/Operations.antt =====
-- The event log under every operation of a runner.
use agf_orchestrator.Base.{ℕ, zero, suc, refl, Option, none, some, String, Bool, not}
use agf_orchestrator.Base.Raise.{Result, ok, raise as raised, campaign_runner_error}
use agf_orchestrator.Base.Text.{has_text}
use agf_orchestrator.Base.Strip.{strip}
use agf_orchestrator.Campaign.Models.{is_terminal, parse_timestamp, retry_backoff}
use agf_orchestrator.Campaign.World.{World, File, pure, now, acquire, status_is}
use agf_orchestrator.Campaign.World.After.{After, After-bind, After-lift, After-if, After-raise_if}
use agf_orchestrator.Campaign.World.Grown.{Grown, Grown-refl, Inv, Rely, acquire-Inv}
use agf_orchestrator.Campaign.Steps.{invalidated, repaired}
use agf_orchestrator.Campaign.Recovery.{recover_deferred_retry}
use agf_orchestrator.Campaign.Recovery.Log.{recover-Inv}
use agf_orchestrator.Campaign.Runner.{
  Setup, key, schedule_retry_locked, tick, schedule_retry, reset_retry, invalidate_binding,
  sleep_seconds, sleep_until, rounds, run_forever, unguarded,
}
use agf_orchestrator.Campaign.Runner.{
  Operation, ticks, runs, schedules_retry, resets_retry, invalidates, perform,
}
use agf_orchestrator.Campaign.Runner.Log.{
  later, Kept, save-Kept, schedule_retry_locked-Kept, loaded-Kept, tick-Kept,
}

module _ (u : Setup) (first : File) where
  schedule_retry-Kept :
      (reason : String) (w : World) → Inv first w → Kept u first (schedule_retry u reason w)
  unfolding schedule_retry
  schedule_retry-Kept reason w inv =
      After-bind (Inv first) (λ _. Inv first) (λ _. Inv first) (acquire w) _
        (acquire-Inv first w inv)
        λ _ v h.
          After-bind (Inv first) (λ _. Inv first) (λ _. Inv first)
            (recover_deferred_retry u.calendar (key u) u.digest v) _
            (recover-Inv u.calendar first (key u) u.digest v h)
            λ _ x i.
              loaded-Kept u first _ x
                (λ s y held.
                  After-if (Inv first) (λ _. Inv first) (is_terminal s.status) (pure s) _ y
                    (λ _. held.0)
                    λ _.
                      After-raise_if (Inv first) (λ _. Inv first) (not (has_text reason))
                        (campaign_runner_error "retry reason is required") y
                        (λ _. schedule_retry_locked u s (strip reason)) held.0
                        λ _. schedule_retry_locked-Kept u first s (strip reason) y held)
                i

  reset_retry-Kept :
      (reason : String) (w : World) → Inv first w → Kept u first (reset_retry u reason w)
  unfolding reset_retry now
  reset_retry-Kept reason w inv =
      loaded-Kept u first _ w
        (λ s y held.
          After-raise_if (Inv first) (λ _. Inv first) (not (status_is s.status retry_backoff))
            (campaign_runner_error "campaign is not in a retryable terminal state") y _ held.0
            λ _.
              After-raise_if (Inv first) (λ _. Inv first) (not (has_text reason))
                (campaign_runner_error "retry reset reason is required") y _ held.0
                λ _.
                  save-Kept u first s
                    (repaired u.calendar (y.clock 0) (y.clock 1) (y.clock 2) s reason
                      (strip reason))
                    (later (later (later y))) held (_, refl))
        inv

  invalidate_binding-Kept :
      (reason : String) (w : World) → Inv first w → Kept u first (invalidate_binding u reason w)
  unfolding invalidate_binding now
  invalidate_binding-Kept reason w inv =
      loaded-Kept u first _ w
        (λ s y held.
          After-if (Inv first) (λ _. Inv first) (is_terminal s.status) (pure s) _ y (λ _. held.0)
            λ _.
              After-raise_if (Inv first) (λ _. Inv first) (not (has_text reason))
                (campaign_runner_error "stale binding reason is required") y _ held.0
                λ _.
                  save-Kept u first s (invalidated u.calendar (y.clock 0) s reason (strip reason))
                    (later y) held (_, refl))
        inv

  sleep-Kept :
      (o : Option String) (w : World)
      → Inv first w
      → After (λ _. Inv first) (Inv first) (sleep_until u o w)
  unfolding now
  sleep-Kept none w inv = inv
  sleep-Kept (some next) w inv =
      After-lift (Inv first) (λ _. Inv first) (parse_timestamp u.calendar next) w _ inv λ _ _. inv

  rounds-Kept :
      (sleeps : Bool) (n : ℕ) (w : World) → Inv first w → Kept u first (rounds u sleeps n w)
  unfolding rounds
  rounds-Kept sleeps zero w inv = tick-Kept u first w inv
  rounds-Kept sleeps (suc n) w inv =
      After-bind (Inv first) (λ _. Inv first) (λ _. Inv first) (tick u w) _
        (tick-Kept u first w inv)
        λ s v h.
          After-if (Inv first) (λ _. Inv first) (is_terminal s.status) (pure s) _ v (λ _. h)
            λ _.
              After-bind (Inv first) (λ _. Inv first) (λ _. Inv first) (sleep_seconds u s v) _
                (sleep-Kept s.next_check_at v h)
                λ _ x i.
                  After-raise_if (Inv first) (λ _. Inv first) (not sleeps)
                    (campaign_runner_error "persistent runner requires a sleep function") x
                    (λ _. rounds u sleeps n) i λ _. rounds-Kept sleeps n x i

perform-Kept :
    (u : Setup) (first : File) (o : Operation) (w : World)
    → Inv first w
    → Kept u first (perform u o w)
unfolding run_forever
perform-Kept u first ticks w inv = tick-Kept u first w inv
perform-Kept u first (runs sleeps n) w inv = rounds-Kept (unguarded u) first sleeps _ w inv
perform-Kept u first (schedules_retry reason) w inv = schedule_retry-Kept u first reason w inv
perform-Kept u first (resets_retry reason) w inv = reset_retry-Kept u first reason w inv
perform-Kept u first (invalidates reason) w inv = invalidate_binding-Kept u first reason w inv

Kept-Grown :
    {A : Type 0} (first : File) (r : Result A × World)
    → After (λ _. Inv first) (Inv first) r
    → Grown first r.1.file
Kept-Grown first (ok _, w) h = h.1
Kept-Grown first (raised _, w) h = h.1

-- Whatever operation a runner performs, and whatever other processes write before each of its sections as
-- long as they only let logs grow, locks, disks, clocks, probe and work being arbitrary: if the file held
-- a campaign, it holds one afterwards, and the log of events of the first is a prefix of the log of the
-- second, also if the operation raises.
pub perform-Grown :
    (u : Setup) (o : Operation) (w : World) → Rely w → Grown w.file (perform u o w).1.file
perform-Grown u o w rely =
    Kept-Grown w.file (perform u o w) (perform-Kept u w.file o w (rely, Grown-refl w.file))
