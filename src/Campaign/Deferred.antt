-- ===== src/Campaign/Deferred.antt =====
-- Retries whose write met a held lock (src/agf_orchestrator/campaign_runner.py): the step is put into a file of
-- its own, and the next operation carries it over into the campaign's file.
pub mod Step
pub mod Payload
use Prim.Native.String.{◌++◌ as join}
use agf_orchestrator.Base.{
  ℕ, suc, ◌+◌, Bool, true, false, not, ◌&&◌, ◌||◌, Option, none, some, List, [], ◌∷◌, ◌++◌, String,
  if◌then◌else◌, leb, ◌==◌, get_last?,
}
use agf_orchestrator.Base.Raise.{
  Error, Result, ok, raise, campaign_runner_error, os_error, raise_if, ◌>>=◌, ◌>>◌,
}
use agf_orchestrator.Base.Text.{str_eq}
use agf_orchestrator.Campaign.Models.{
  Calendar, CampaignState, CampaignStatus, CampaignEvent, status_value, is_terminal, validate,
  parse_timestamp, StoreKey, validate_identity, retry_backoff, blocked_non_retryable,
}
use agf_orchestrator.Campaign.World.{
  Deferred, Sidecar, missing, broken, payload, campaign, state_eq,
}
use agf_orchestrator.Campaign.Steps.{or_else}

-- `_retry_digest` of a payload without its digest: SHA-256 of its canonical JSON.
abbrev pub Digest : Type 0
Digest = String → CampaignState → CampaignState → String

abbrev pub inconsistent : {A : Type 0} → Result A
inconsistent = raise (campaign_runner_error "deferred retry evidence is inconsistent")

-- `parse_timestamp` of a value that may be `None`
abbrev pub parse_given : Calendar → Option String → Result ℕ
parse_given calendar none = raise (campaign_runner_error "campaign timestamp is invalid")
parse_given calendar (some s) = parse_timestamp calendar s

abbrev pub is_exhausted : CampaignState → Bool
is_exhausted before = leb before.retry_budget before.retry_count

-- The state that the payload's `after` must be, given its reason and the time of its event.
abbrev pub expected : CampaignState → CampaignState → String → String → CampaignState
expected before after reason event_timestamp =
    let spent = is_exhausted before in
    let status = if spent then blocked_non_retryable else retry_backoff in
    let event : CampaignEvent = record {
      sequence = before.event_sequence + 1;
      event_type = if spent then "RETRY_EXHAUSTED" else "RETRY_BACKOFF";
      status = status_value status;
      timestamp = event_timestamp;
      summary = reason;
    } in
    record before {
      status = status;
      reason = some reason;
      updated_at = after.updated_at;
      waiting_since = if spent then none else some after.updated_at;
      next_check_at = if spent then none else after.next_check_at;
      retry_count = if spent then before.retry_count else before.retry_count + 1;
      lease_owner = none;
      lease_expires_at = none;
      event_sequence = before.event_sequence + 1;
      events = before.events ++ event ∷ [];
      resource =
          if spent
          then before.resource
          else some (or_else before.resource "campaign-external-boundary");
      expected_condition =
          if spent
          then before.expected_condition
          else some (or_else before.expected_condition "retry budget remains");
    }

-- Old payloads have a time of their own in the event, at most one second before `updated_at`.
abbrev pub legacy_timestamp : Calendar → CampaignState → Result String
legacy_timestamp calendar after = elim (get_last? after.events) [
  | none ↦ inconsistent
  | some event ↦ do
    updated ← parse_timestamp calendar after.updated_at
    recorded ← parse_timestamp calendar event.timestamp
    if updated == recorded || updated == recorded + 1 then ok event.timestamp else inconsistent
]

abbrev pub event_time : Calendar → Bool → CampaignState → Result String
event_time calendar true after = legacy_timestamp calendar after
event_time calendar false after = ok after.updated_at

-- The last test of `_read_deferred`: a retry within the budget is checked again later.
abbrev pub check_next :
    Calendar → CampaignState → CampaignState → Result (CampaignState × CampaignState)
check_next calendar before after = if is_exhausted before then ok (before, after) else do
  next ← parse_given calendar after.next_check_at
  updated ← parse_timestamp calendar after.updated_at
  if leb next updated then inconsistent else ok (before, after)

-- The tests of `_read_deferred` on the two states.
unfoldable pub check_step :
    Calendar → Bool → CampaignState → CampaignState → Result (CampaignState × CampaignState)
check_step calendar legacy before after = do
  event_timestamp ← event_time calendar legacy after
  elim after.reason [
    | none ↦ inconsistent
    | some reason ↦
        if is_terminal before.status
          || not (state_eq after (expected before after reason event_timestamp))
        then inconsistent
        else check_next calendar before after
  ]

-- `_read_deferred`
unfoldable pub read_deferred :
    Calendar → StoreKey → Digest → Bool → Sidecar → Result (CampaignState × CampaignState)
unfolding check_step
read_deferred calendar key digest legacy (payload d) = do
  raise_if
      (not (str_eq d.schema_version "1.0")
        || not (str_eq d.sha256 (digest d.schema_version d.before d.after)))
      (campaign_runner_error "deferred retry evidence is inconsistent")
  validate calendar d.before
  validate calendar d.after
  validate_identity calendar key d.before
  validate_identity calendar key d.after
  check_step calendar legacy d.before d.after
read_deferred calendar key digest legacy _ = inconsistent

-- `_legacy_deferred_candidate`: a campaign's own file at that path is left alone.
abbrev pub legacy_candidate : Calendar → StoreKey → Sidecar → Bool
legacy_candidate calendar key missing = false
legacy_candidate calendar key broken = true
legacy_candidate calendar key (payload d) = true
legacy_candidate calendar key (campaign s) = elim (validate calendar s) [
  | raise _ ↦ true
  | ok _ ↦ not (
      str_eq s.project_id key.project_id
      && str_eq s.campaign_id (join key.campaign_id ".deferred-retry"))
]

abbrev pub is_present : Sidecar → Bool
is_present missing = false
is_present _ = true

abbrev pub same_steps : CampaignState × CampaignState → CampaignState × CampaignState → Bool
same_steps a b = state_eq a.0 b.0 && state_eq a.1 b.1

abbrev pub conflict : Error
conflict = campaign_runner_error "conflicting deferred retry evidence"

-- What the two files say if both are there: they must agree.
unfoldable pub both_steps :
    Calendar → StoreKey → Digest → Sidecar → Sidecar → Result (CampaignState × CampaignState)
unfolding read_deferred
both_steps calendar key digest current legacy = do
  steps ← read_deferred calendar key digest false current
  others ← read_deferred calendar key digest true legacy
  raise_if (not (same_steps others steps)) conflict
  ok steps

abbrev pub recorded :
    Result (CampaignState × CampaignState) → Result (Option (CampaignState × CampaignState))
recorded r = r >>= λ steps. ok (some steps)

-- What `_recover_deferred_retry` reads: the step, or nothing.
unfoldable pub deferred_steps :
    Calendar
    → StoreKey
    → Digest
    → Sidecar
    → Sidecar
    → Result (Option (CampaignState × CampaignState))
unfolding read_deferred both_steps
deferred_steps calendar key digest current legacy =
    if is_present current && legacy_candidate calendar key legacy
    then recorded (both_steps calendar key digest current legacy)
    else if is_present current
    then recorded (read_deferred calendar key digest false current)
    else if legacy_candidate calendar key legacy
    then recorded (read_deferred calendar key digest true legacy)
    else ok none
