-- ===== src/Campaign/Store.antt =====
-- `CampaignStore` (src/agf_orchestrator/campaign_runner.py): the persistence of one campaign.
pub mod Log
pub mod Lease
pub mod Full
use agf_orchestrator.Base.{
  ℕ, suc, ◌+◌, Bool, true, false, not, ◌&&◌, ◌||◌, Option, none, some, List, [], ◌∷◌, ◌++◌, String,
  if◌then◌else◌, ltb, ◌==◌,
}
use agf_orchestrator.Base.Raise.{Error, Result, campaign_runner_error}
use agf_orchestrator.Base.Text.{str_eq, starts_with}
use agf_orchestrator.Campaign.Models.{
  Calendar, CampaignState, CampaignEvent, status_value, is_terminal, parse_timestamp, has_char,
  StoreKey, validate_identity,
}
use agf_orchestrator.Campaign.World.{
  Exec, pure, raise, lift, ◌>>=◌, ◌>>◌, raise_if, now, enter, load_unlocked, save_unlocked,
  state_eq,
}

-- `value or ""`
abbrev pub or_empty : Option String → String
or_empty none = ""
or_empty (some s) = s

abbrev pub create_over : CampaignState → Option CampaignState → Exec CampaignState
create_over s none = save_unlocked s >> pure s
create_over s (some existing) =
    if state_eq existing s
    then pure existing
    else raise (campaign_runner_error "campaign already exists with different content")

-- `create`
unfoldable pub create : Calendar → StoreKey → CampaignState → Exec CampaignState
create calendar key s = do
  lift (validate_identity calendar key s)
  enter
  existing ← load_unlocked calendar
  create_over s existing

abbrev pub found : Option CampaignState → Exec CampaignState
found none = raise (campaign_runner_error "campaign state was not found")
found (some s) = pure s

-- `load`
unfoldable pub load : Calendar → Exec CampaignState
load calendar = do enter; current ← load_unlocked calendar; found current

-- The body of `save` on the state that the file holds.
abbrev pub save_over : CampaignState → CampaignState → Exec CampaignState
save_over s current =
    if ltb s.event_sequence current.event_sequence
    then raise (campaign_runner_error "campaign event sequence regressed")
    else if s.event_sequence == current.event_sequence && not (state_eq s current)
    then raise (campaign_runner_error "campaign state changed concurrently")
    else (save_unlocked s >> pure s)

-- `save`
unfoldable pub save : Calendar → StoreKey → CampaignState → Exec CampaignState
save calendar key s = do
  lift (validate_identity calendar key s)
  enter
  read ← load_unlocked calendar
  current ← found read
  save_over s current

-- Whether somebody holds the lease, by a look at the clock.
abbrev pub leased_by : Calendar → CampaignState → Option String → Exec Bool
leased_by calendar s none = pure false
leased_by calendar s (some owner) = do
  expires ← lift (parse_timestamp calendar (or_empty s.lease_expires_at))
  at ← now
  pure (ltb at expires)

abbrev pub is_leased : Calendar → CampaignState → Exec Bool
is_leased calendar s = leased_by calendar s s.lease_owner

-- The state with the lease of one invocation.
abbrev pub claimed : Calendar → String → ℕ → ℕ → CampaignState → CampaignState
claimed calendar worker_id expiry at s =
    let event : CampaignEvent = record {
      sequence = s.event_sequence + 1;
      event_type = "WORK_CLAIM";
      status = status_value s.status;
      timestamp = calendar.print at;
      summary = "provider/work lease claimed";
    } in
    record s {
      lease_owner = some worker_id;
      lease_expires_at = some (calendar.print expiry);
      updated_at = event.timestamp;
      event_sequence = event.sequence;
      events = s.events ++ event ∷ [];
    }

-- The body of `claim` on the state that the file holds.
unfoldable pub claim_found : Calendar → String → ℕ → CampaignState → Exec (Option CampaignState)
claim_found calendar worker_id expiry s = if is_terminal s.status then pure none else do
  busy ← is_leased calendar s
  if busy then pure none else do
    at ← now
    save_unlocked (claimed calendar worker_id expiry at s)
    pure (some (claimed calendar worker_id expiry at s))

-- The section of `claim` under the lock.
unfoldable pub claim_section : Calendar → String → ℕ → Exec (Option CampaignState)
unfolding claim_found
claim_section calendar worker_id expiry = do
  enter
  read ← load_unlocked calendar
  current ← found read
  claim_found calendar worker_id expiry current

abbrev pub is_worker : String → Bool
is_worker worker_id = starts_with worker_id "runner-" && not (has_char b'/' worker_id)

-- `claim`
unfoldable pub claim : Calendar → String → String → Exec (Option CampaignState)
unfolding claim_section
claim calendar worker_id lease_expires_at = do
  raise_if (not (is_worker worker_id)) (campaign_runner_error "campaign worker identity is invalid")
  expiry ← lift (parse_timestamp calendar lease_expires_at)
  claim_section calendar worker_id expiry
