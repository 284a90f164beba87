-- ===== src/Tests/Campaigns.antt =====
-- Campaigns (src/agf_orchestrator/campaign_runner.py) on concrete inputs.
mod Leases
mod Retries
use Prim.Native.Char.{Char, code}
use agf_orchestrator.Base.{
  ℕ, zero, suc, ◌+◌, ◌-◌, ◌≡◌, refl, ap, Option, none, some, List, [], ◌∷◌, String, Bool, true,
  false, if◌then◌else◌, ◌==◌, ◌&&◌, not, arith,
}
use agf_orchestrator.Base.Raise.{Result, ok}
use agf_orchestrator.Base.Text.{is_nonempty}
use agf_orchestrator.Campaign.Models.{
  Calendar, CampaignState, CampaignEvent, CampaignStatus, running,
}
use agf_orchestrator.Campaign.World.{World, File, document, missing}
use agf_orchestrator.Campaign.Steps.{Runner, StepResult, StepOutcome, continues}
use agf_orchestrator.Campaign.Runner.{Setup, Attempt, returned}

-- Times as tallies.
abbrev tally : ℕ → String
tally zero = "Z"
tally (suc n) = String.◌∷◌ "|" (tally n)

abbrev one_more : Option ℕ → Option ℕ
one_more none = none
one_more (some n) = some (suc n)

abbrev count : String → Option ℕ
count String.[] = none
count (String.◌∷◌ c s) =
    let rest = count s in
    if code c == b'|'
    then one_more rest
    else if code c == b'Z' && not (is_nonempty s)
    then some 0
    else none

pub count-tally : (n : ℕ) → count (tally n) ≡ some n
unfolding is_nonempty
count-tally zero = refl
count-tally (suc n) = ap one_more (count-tally n)

pub tally_filled : (n : ℕ) → is_nonempty (tally n) ≡ true
unfolding is_nonempty
tally_filled zero = refl
tally_filled (suc n) = ground arith

abbrev pub tallies : Calendar
tallies = record {
  print = tally;
  parse = count;
  parse-print = count-tally;
  print_filled = tally_filled;
}

abbrev event : ℕ → CampaignEvent
event n = record {
  sequence = n;
  event_type = "WORK_CLAIM";
  status = "RUNNING";
  timestamp = "Z";
  summary = "a lease";
}

abbrev pub events : ℕ → ℕ → List CampaignEvent
events from zero = []
events from (suc n) = event from ∷ events (suc from) n

-- A campaign that runs, with so many events.
abbrev pub campaign_of : ℕ → CampaignState
campaign_of n = record {
  schema_version = "1.0";
  campaign_id = "campaign-1";
  project_id = "project-1";
  session_id = "session-1";
  status = running;
  phase = "build";
  reason = none;
  resource = none;
  expected_condition = none;
  created_at = "Z";
  updated_at = "Z";
  waiting_since = none;
  next_check_at = none;
  lease_owner = none;
  lease_expires_at = none;
  retry_count = 0;
  retry_budget = 1;
  operation_id = "operation-1";
  target_sha = "0123456789012345678901234567890123456789";
  lineage_binding = "lineage";
  wake_generation = 0;
  event_sequence = n;
  events = events 1 n;
  policy_binding = none;
  authority_generation = none;
}

-- A world in which nothing fails, at this time and a second later at each look at the clock.
abbrev pub world : ℕ → CampaignState → World
world at s = record {
  file = document s;
  deferred = missing;
  legacy = missing;
  clock = λ n. at + n;
  locks = λ _. none;
  disks = λ _. none;
  turns = λ _ f. f;
}

abbrev pub runner : Runner
runner = record {
  project_id = "project-1";
  campaign_id = "campaign-1";
  worker_id = "runner-1";
  base_backoff_seconds = 1;
  max_backoff_seconds = 2;
  lease_seconds = 30;
}

abbrev pub setup : Setup
setup = record {
  calendar = tallies;
  digest = λ version before after. "digest";
  runner = runner;
  probe = λ _. returned false;
  work = λ _. returned (record { outcome = continues; wait = none; reason = none });
  wake_guard = λ _. ok tt;
}
