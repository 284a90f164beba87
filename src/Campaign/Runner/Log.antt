-- ===== src/Campaign/Runner/Log.antt =====
-- Whatever a runner does, and whatever others write in between, a campaign's log only grows.
use agf_orchestrator.Base.{
  ℕ, suc, ◌+◌, ◌≡◌, refl, subst, [], ◌∷◌, ◌++◌, Option, none, some, Bool-cases, inl, inr, String,
  Bool, ltb,
}
use agf_orchestrator.Base.Raise.{
  Error, message, Result, ok, raise as raised, Result-cases, campaign_runner_error, assertion_error,
  lock_error,
}
use agf_orchestrator.Base.Raise as Raises
use agf_orchestrator.Base.Text.{starts_with}
use agf_orchestrator.Campaign.Models.{
  CampaignState, CampaignEvent, CampaignStatus, Calendar, is_terminal, is_waiting, parse_timestamp,
}
use agf_orchestrator.Campaign.World.{World, Exec, File, continue, pure, raise, now, acquire, ◌>>◌}
use agf_orchestrator.Campaign.World.After.{After, After-bind, After-lift, After-if, After-weaken}
use agf_orchestrator.Campaign.World.Grown.{Inv, Held, acquire-Inv}
use agf_orchestrator.Campaign.Store.{or_empty, claim}
use agf_orchestrator.Campaign.Store.Log.{
  Loaded, Loaded-Held, load-Loaded, save-Inv, Claims, claim-Claims,
}
use agf_orchestrator.Campaign.Steps.{
  Runner, retried, exhausted, backed_off, StepResult, StepOutcome, waits, retries, continues, ends,
  WaitRequest, woken, stepped, waited, backoff_delay,
}
use agf_orchestrator.Campaign.Recovery.{defer_retry, recover_deferred_retry}
use agf_orchestrator.Campaign.Recovery.Log.{recover-Inv, defer_retry-Inv}
use agf_orchestrator.Campaign.Runner.{
  Setup, Attempt, returned, failed, key, store_load, store_save, is_lock_error, save_or_defer,
  schedule_retry_locked, apply_step, apply_wait, apply_outcome, apply_result, worked, invoked,
  invoke, is_concurrent, after_wake, wake, probed, poll, tick_loaded, tick_locked, ticked, tick,
}

abbrev pub later : World → World
later w = record w { clock = λ n. w.clock (suc n) }

abbrev pub OneMore : CampaignState → CampaignState → Type 0
OneMore s u = (e : CampaignEvent) × (u.events ≡ s.events ++ e ∷ [])

retried-OneMore :
    (calendar : Calendar) (r : Runner) (at : ℕ) (s : CampaignState) (reason : String)
    (u : CampaignState)
    → retried calendar r at s reason ≡ ok u
    → OneMore s u
unfolding retried
retried-OneMore calendar r at s reason u h =
    elim (Bool-cases (ltb s.retry_budget (s.retry_count + 1))) [
      | inl spent ↦
          let h' = rw spent at h in
          subst (OneMore s) (Raises.ok-injective (exhausted calendar at s reason) u h') (_, refl)
      | inr within ↦
          let h' = rw within at h in
          let (t, _, e) = Raises.>>=-eq-ok (parse_timestamp calendar (calendar.print at)) _ h' in
          subst (OneMore s)
            (Raises.ok-injective
              (backed_off calendar at (t + backoff_delay r (s.retry_count + 1)) s reason) u e)
            (_, refl)
    ]

module _ (u : Setup) (first : File) where
  abbrev pub Kept : {A : Type 0} → Result A × World → Type 0
  Kept = After (λ _. Inv first) (Inv first)

  pub save-Kept :
      (s v : CampaignState) (w : World) → Held first s w → OneMore s v → Kept (store_save u v w)
  save-Kept s v w held (e, one) =
      After-weaken (Inv first) (λ r x. Inv first x × (r ≡ v)) (λ _. Inv first) (store_save u v w)
        (λ _ x h. h.0) (save-Inv u.calendar first (key u) s v e w held one)

  load-Kept : (w : World) → Inv first w → Kept (store_load u w)
  load-Kept w inv =
      After-weaken (Inv first) (Loaded u.calendar first) (λ _. Inv first) (store_load u w)
        (λ _ x h. h.0) (load-Loaded u.calendar first w inv)

  save_or_defer-Kept :
      (s v : CampaignState) (r : Result CampaignState × World)
      → Kept r
      → Kept (save_or_defer u s v r)
  save_or_defer-Kept s v (ok _, w) h = h
  save_or_defer-Kept s v (raised e, w) h =
      After-if (Inv first) (λ _. Inv first) (is_lock_error e)
        (defer_retry u.calendar (key u) u.digest s v >> pure v) (raise e) w
        (λ _.
          After-bind (Inv first) (λ _. Inv first) (λ _. Inv first)
            (defer_retry u.calendar (key u) u.digest s v w) (λ _. pure v)
            (defer_retry-Inv u.calendar first (key u) u.digest s v w h) (λ _ x i. i))
        (λ _. h)

  pub schedule_retry_locked-Kept :
      (s : CampaignState) (reason : String) (w : World)
      → Held first s w
      → Kept (schedule_retry_locked u s reason w)
  unfolding schedule_retry_locked now
  schedule_retry_locked-Kept s reason w held =
      After-lift (Inv first) (λ _. Inv first) (retried u.calendar u.runner (w.clock 0) s reason)
        (later w) (λ v x. save_or_defer u s v (store_save u v x)) held.0
        λ v is_ok. save_or_defer-Kept s v (store_save u v (later w)) (
          save-Kept s v (later w) held
            (retried-OneMore u.calendar u.runner (w.clock 0) s reason v is_ok))

  apply_wait-Kept :
      (s : CampaignState) (o : Option WaitRequest) (reason : Option String) (w : World)
      → Held first s w
      → Kept (apply_wait u s o reason w)
  unfolding now
  apply_wait-Kept s none reason w held = held.0
  apply_wait-Kept s (some wait) reason w held =
      save-Kept s (waited u.calendar (w.clock 0) (w.clock 1) s wait reason) (later (later w)) held
        (_, refl)

  apply_step-Kept :
      (s : CampaignState) (target : CampaignStatus) (outcome : String) (reason : Option String)
      (w : World)
      → Held first s w
      → Kept (apply_step u s target outcome reason w)
  unfolding now
  apply_step-Kept s target outcome reason w held =
      save-Kept s (stepped u.calendar (w.clock 1) s target outcome reason) (later (later w)) held
        (_, refl)

  apply_outcome-Kept :
      (s : CampaignState) (r : StepResult) (o : StepOutcome) (w : World)
      → Held first s w
      → Kept (apply_outcome u s r o w)
  apply_outcome-Kept s r retries w held = schedule_retry_locked-Kept s _ w held
  apply_outcome-Kept s r waits w held = apply_wait-Kept s r.wait r.reason w held
  apply_outcome-Kept s r continues w held = apply_step-Kept s _ _ r.reason w held
  apply_outcome-Kept s r (ends status) w held = apply_step-Kept s status _ r.reason w held

  worked-Kept :
      (s : CampaignState) (a : Attempt StepResult) (w : World)
      → Held first s w
      → Kept (worked u s a w)
  unfolding apply_result
  worked-Kept s (failed name) w held = schedule_retry_locked-Kept s _ w held
  worked-Kept s (returned r) w held = apply_outcome-Kept s r r.outcome w held

  invoked-Kept :
      (o : Option CampaignState) (w : World) → Claims u.calendar first o w → Kept (invoked u o w)
  invoked-Kept none w h = load-Kept w h.0
  invoked-Kept (some s) w h = worked-Kept s (u.work s) w (h.1 s refl)

  invoke-Kept : (w : World) → Inv first w → Kept (invoke u w)
  unfolding invoke now
  invoke-Kept w inv =
      let expires = u.calendar.print (w.clock 0 + u.runner.lease_seconds) in
      After-bind (Inv first) (Claims u.calendar first) (λ _. Inv first)
        (claim u.calendar u.runner.worker_id expires (later w)) (invoked u)
        (claim-Claims u.calendar first u.runner.worker_id expires (later w) inv) invoked-Kept

  after_wake-Kept : (r : Result CampaignState × World) → Kept r → Kept (after_wake u r)
  after_wake-Kept (ok _, w) h = invoke-Kept w h
  after_wake-Kept (raised e, w) h =
      After-if (Inv first) (λ _. Inv first) (is_concurrent e) (store_load u) (raise e) w
        (λ _. load-Kept w h) (λ _. h)

  wake-Kept : (s : CampaignState) (w : World) → Held first s w → Kept (wake u s w)
  unfolding wake now
  wake-Kept s w held =
      After-lift (Inv first) (λ _. Inv first) (u.wake_guard s) w _ held.0
        λ _ _.
          after_wake-Kept (store_save u (woken u.calendar (w.clock 0) s) (later w))
            (save-Kept s (woken u.calendar (w.clock 0) s) (later w) held (_, refl))

  probed-Kept :
      (s : CampaignState) (a : Attempt Bool) (w : World) → Held first s w → Kept (probed u s a w)
  probed-Kept s (failed name) w held = schedule_retry_locked-Kept s _ w held
  probed-Kept s (returned ready) w held =
      After-if (Inv first) (λ _. Inv first) ready (wake u s)
        (schedule_retry_locked u s "external condition not satisfied") w (λ _. wake-Kept s w held)
        (λ _. schedule_retry_locked-Kept s _ w held)

  poll-Kept : (at : ℕ) (s : CampaignState) (w : World) → Held first s w → Kept (poll u at s w)
  unfolding poll
  poll-Kept at s w held =
      After-lift (Inv first) (λ _. Inv first)
        (parse_timestamp u.calendar (or_empty s.next_check_at)) w _ held.0
        λ next _.
          After-if (Inv first) (λ _. Inv first) (ltb at next) (pure s) (probed u s (u.probe s)) w
            (λ _. held.0) (λ _. probed-Kept s (u.probe s) w held)

  tick_loaded-Kept : (s : CampaignState) (w : World) → Held first s w → Kept (tick_loaded u s w)
  unfolding now
  tick_loaded-Kept s w held =
      After-if (Inv first) (λ _. Inv first) (is_terminal s.status) (pure s) _ w (λ _. held.0)
        λ _.
          After-if (Inv first) (λ _. Inv first) (is_waiting s.status) (poll u (w.clock 0) s)
            (invoke u) (later w) (λ _. poll-Kept (w.clock 0) s (later w) held)
            (λ _. invoke-Kept (later w) held.0)

  pub loaded-Kept :
      {A : Type 0} (f : CampaignState → Exec A) (w : World)
      → ((s : CampaignState) (v : World) → Held first s v → Kept (f s v))
      → Inv first w
      → Kept (continue (store_load u w) f)
  loaded-Kept f w k inv =
      After-bind (Inv first) (Loaded u.calendar first) (λ _. Inv first) (store_load u w) f
        (load-Loaded u.calendar first w inv) λ s v h. k s v (Loaded-Held u.calendar first s v h)

  tick_locked-Kept : (w : World) → Inv first w → Kept (tick_locked u w)
  unfolding tick_locked
  tick_locked-Kept w inv =
      After-bind (Inv first) (λ _. Inv first) (λ _. Inv first)
        (recover_deferred_retry u.calendar (key u) u.digest w) _
        (recover-Inv u.calendar first (key u) u.digest w inv)
        λ _ v h. loaded-Kept (tick_loaded u) v tick_loaded-Kept h

  ticked-Kept : (r : Result (Unit {0}) × World) → Kept r → Kept (ticked u r)
  ticked-Kept (ok _, w) h = tick_locked-Kept w h
  ticked-Kept (raised e, w) h =
      After-if (Inv first) (λ _. Inv first) (starts_with (message e) "lock is held:") (store_load u)
        (raise e) w (λ _. load-Kept w h) (λ _. h)

  pub tick-Kept : (w : World) → Inv first w → Kept (tick u w)
  unfolding tick
  tick-Kept w inv = ticked-Kept (acquire w) (acquire-Inv first w inv)
