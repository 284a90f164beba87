-- ===== src/Campaign/Runner.antt =====
-- `PersistentCampaignRunner` (src/agf_orchestrator/campaign_runner.py): the operations that drive a campaign.
pub mod Log
pub mod Operations
pub mod Carry
pub mod Quiet
pub mod Blocked
use Prim.Native.String.{◌++◌ as join}
use agf_orchestrator.Base.{
  ℕ, zero, suc, ◌+◌, ◌-◌, Bool, true, false, not, ◌&&◌, ◌||◌, Option, none, some, String,
  if◌then◌else◌, ltb, leb,
}
use agf_orchestrator.Base.Raise.{
  Error, Result, ok, raise as raised, campaign_runner_error, lock_error, assertion_error, message,
}
use agf_orchestrator.Base.Text.{has_text, starts_with}
use agf_orchestrator.Base.Strip.{strip, contains}
use agf_orchestrator.Campaign.Models.{
  Calendar, CampaignState, CampaignStatus, status_value, is_terminal, is_waiting, running,
  retry_backoff, parse_timestamp, StoreKey,
}
use agf_orchestrator.Campaign.World.{
  World, Exec, pure, raise, lift, continue, ◌>>=◌, ◌>>◌, raise_if, now, acquire, status_is,
}
use agf_orchestrator.Campaign.Store.{load, save, claim, or_empty}
use agf_orchestrator.Campaign.Steps.{
  Runner, retried, WaitRequest, StepResult, StepOutcome, continues, waits, retries, ends, waited,
  stepped, woken, invalidated, repaired, or_else,
}
use agf_orchestrator.Campaign.Deferred.{Digest}
use agf_orchestrator.Campaign.Recovery.{defer_retry, recover_deferred_retry}

-- A call of code that is not the runner's: it returns, or raises an exception of the class that is named.
pub data Attempt (A : Type 0) : Type 0 where
  returned : A → Attempt A
  failed : String → Attempt A

-- What a runner is given: its settings, the calendar of the platform, the digest, the probe of the outside, the
-- work, and the guard of a wake.
pub record Setup : Type 0 where
  pub calendar : Calendar
  pub digest : Digest
  pub runner : Runner
  pub probe : CampaignState → Attempt Bool
  pub work : CampaignState → Attempt StepResult
  pub wake_guard : CampaignState → Result (Unit {0})

abbrev pub key : Setup → StoreKey
key u = record { project_id = u.runner.project_id; campaign_id = u.runner.campaign_id }

abbrev pub store_load : Setup → Exec CampaignState
store_load u = load u.calendar

abbrev pub store_save : Setup → CampaignState → Exec CampaignState
store_save u s = save u.calendar (key u) s

abbrev pub is_lock_error : Error → Bool
is_lock_error (lock_error m) = true
is_lock_error _ = false

-- `try: self.store.save(updated)`, with the deferral on a `LockError`
abbrev pub save_or_defer :
    Setup
    → CampaignState
    → CampaignState
    → Result CampaignState × World
    → Result CampaignState × World
save_or_defer u s updated (ok _, w) = (ok updated, w)
save_or_defer u s updated (raised e, w) =
    (if is_lock_error e
        then (defer_retry u.calendar (key u) u.digest s updated >> pure updated)
        else raise e)
      w

-- `_schedule_retry`
unfoldable pub schedule_retry_locked : Setup → CampaignState → String → Exec CampaignState
schedule_retry_locked u s reason = do
  at ← now
  updated ← lift (retried u.calendar u.runner at s reason)
  λ w. save_or_defer u s updated (store_save u updated w)

-- `_apply_result` for the outcomes but WAIT and RETRY
abbrev pub apply_step :
    Setup → CampaignState → CampaignStatus → String → Option String → Exec CampaignState
apply_step u s target outcome reason = do
  at ← now
  recorded ← now
  store_save u (stepped u.calendar recorded s target outcome reason)

abbrev pub apply_wait :
    Setup → CampaignState → Option WaitRequest → Option String → Exec CampaignState
apply_wait u s none reason = raise (assertion_error "")
apply_wait u s (some wait) reason = do
  at ← now
  recorded ← now
  store_save u (waited u.calendar at recorded s wait reason)

abbrev pub apply_outcome : Setup → CampaignState → StepResult → StepOutcome → Exec CampaignState
apply_outcome u s r retries =
    schedule_retry_locked u s (or_else r.reason "governed step requested bounded retry")
apply_outcome u s r waits = apply_wait u s r.wait r.reason
apply_outcome u s r continues = apply_step u s running "CONTINUE" r.reason
apply_outcome u s r (ends status) = apply_step u s status (status_value status) r.reason

-- `_apply_result`
unfoldable pub apply_result : Setup → CampaignState → StepResult → Exec CampaignState
unfolding schedule_retry_locked
apply_result u s r = apply_outcome u s r r.outcome

abbrev pub worked : Setup → CampaignState → Attempt StepResult → Exec CampaignState
worked u s (failed name) = schedule_retry_locked u s (join "work invocation failed: " name)
worked u s (returned r) = apply_result u s r

abbrev pub invoked : Setup → Option CampaignState → Exec CampaignState
invoked u none = store_load u
invoked u (some s) = worked u s (u.work s)

-- The end of `_tick_locked`: the claim and the work.
unfoldable pub invoke : Setup → Exec CampaignState
unfolding apply_result schedule_retry_locked
invoke u = do
  at ← now
  lease ← claim u.calendar u.runner.worker_id (u.calendar.print (at + u.runner.lease_seconds))
  invoked u lease

abbrev pub is_concurrent : Error → Bool
is_concurrent (campaign_runner_error m) = contains "changed concurrently" m
is_concurrent _ = false

-- `try: self.store.save(state)` on a wake
abbrev pub after_wake : Setup → Result CampaignState × World → Result CampaignState × World
after_wake u (ok _, w) = invoke u w
after_wake u (raised e, w) = (if is_concurrent e then store_load u else raise e) w

unfoldable pub wake : Setup → CampaignState → Exec CampaignState
unfolding invoke
wake u s = do
  lift (u.wake_guard s)
  at ← now
  λ w. after_wake u (store_save u (woken u.calendar at s) w)

abbrev pub probed : Setup → CampaignState → Attempt Bool → Exec CampaignState
probed u s (failed name) = schedule_retry_locked u s (join "external probe failed: " name)
probed u s (returned ready) =
    if ready then wake u s else schedule_retry_locked u s "external condition not satisfied"

-- The branch of `_tick_locked` on a waiting campaign, at the time that was read.
unfoldable pub poll : Setup → ℕ → CampaignState → Exec CampaignState
unfolding wake schedule_retry_locked
poll u current_time s = do
  next_check ← lift (parse_timestamp u.calendar (or_empty s.next_check_at))
  if ltb current_time next_check then pure s else probed u s (u.probe s)

abbrev pub tick_loaded : Setup → CampaignState → Exec CampaignState
tick_loaded u s =
    if is_terminal s.status
    then pure s
    else do current_time ← now; if is_waiting s.status then poll u current_time s else invoke u

-- `_tick_locked`
unfoldable pub tick_locked : Setup → Exec CampaignState
unfolding poll invoke
tick_locked u = do
  recover_deferred_retry u.calendar (key u) u.digest
  s ← store_load u
  tick_loaded u s

-- `tick`: the lock of the campaign's operations may be held by another process.
abbrev pub ticked : Setup → Result (Unit {0}) × World → Result CampaignState × World
ticked u (ok _, w) = tick_locked u w
ticked u (raised e, w) =
    (if starts_with (message e) "lock is held:" then store_load u else raise e) w

unfoldable pub tick : Setup → Exec CampaignState
unfolding tick_locked
tick u w = ticked u (acquire w)

-- `schedule_retry`
unfoldable pub schedule_retry : Setup → String → Exec CampaignState
unfolding schedule_retry_locked
schedule_retry u reason = do
  acquire
  recover_deferred_retry u.calendar (key u) u.digest
  s ← store_load u
  if is_terminal s.status then pure s else do
    raise_if (not (has_text reason)) (campaign_runner_error "retry reason is required")
    schedule_retry_locked u s (strip reason)

-- `reset_retry`
unfoldable pub reset_retry : Setup → String → Exec CampaignState
reset_retry u reason = do
  s ← store_load u
  raise_if (not (status_is s.status retry_backoff))
      (campaign_runner_error "campaign is not in a retryable terminal state")
  raise_if (not (has_text reason)) (campaign_runner_error "retry reset reason is required")
  at ← now
  since ← now
  next ← now
  store_save u (repaired u.calendar at since next s reason (strip reason))

-- `invalidate_binding`
unfoldable pub invalidate_binding : Setup → String → Exec CampaignState
invalidate_binding u reason = do
  s ← store_load u
  if is_terminal s.status then pure s else do
    raise_if (not (has_text reason)) (campaign_runner_error "stale binding reason is required")
    at ← now
    store_save u (invalidated u.calendar at s reason (strip reason))

-- `_sleep_seconds`
abbrev pub sleep_until : Setup → Option String → Exec ℕ
sleep_until u none = pure 0
sleep_until u (some next) = do
  wake_at ← lift (parse_timestamp u.calendar next)
  at ← now
  pure (wake_at - at)

abbrev pub sleep_seconds : Setup → CampaignState → Exec ℕ
sleep_seconds u s = sleep_until u s.next_check_at

-- The rounds of `run_forever` that may follow the first.
unfoldable pub rounds : Setup → Bool → ℕ → Exec CampaignState
unfolding tick
rounds u sleeps zero = tick u
rounds u sleeps (suc n) = do
  s ← tick u
  if is_terminal s.status then pure s else do
    seconds ← sleep_seconds u s
    raise_if (not sleeps) (campaign_runner_error "persistent runner requires a sleep function")
    rounds u sleeps n

-- `run_forever` passes no guard to `tick`.
abbrev pub unguarded : Setup → Setup
unguarded u = record u { wake_guard = λ _. ok tt }

-- `run_forever` with a `max_ticks`, and with a sleep function or without; it ticks at least once.
unfoldable pub run_forever : Setup → Bool → ℕ → Exec CampaignState
unfolding rounds
run_forever u sleeps max_ticks = rounds (unguarded u) sleeps (max_ticks - 1)

-- The public operations of a runner.
pub data Operation : Type 0 where
  ticks : Operation
  runs : Bool → ℕ → Operation
  schedules_retry resets_retry invalidates : String → Operation

abbrev pub perform : Setup → Operation → Exec CampaignState
perform u ticks = tick u
perform u (runs sleeps max_ticks) = run_forever u sleeps max_ticks
perform u (schedules_retry reason) = schedule_retry u reason
perform u (resets_retry reason) = reset_retry u reason
perform u (invalidates reason) = invalidate_binding u reason
