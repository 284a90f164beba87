-- ===== src/Campaign/Models.antt =====
-- The durable state of a campaign (src/agf_orchestrator/campaign_runner.py). Counters are natural numbers, so
-- that the tests that they are not negative are their type, as the `isinstance` tests are.
pub mod Valid
use Prim.Native.String.{◌++◌}
use agf_orchestrator.Base.{
  ℕ, suc, Bool, true, false, not, ◌&&◌, ◌||◌, Option, none, some, List, [], ◌∷◌, ◌++◌ as append,
  String, length, if◌then◌else◌, ◌==◌, leb, ltb, ◌≡◌, any,
}
use agf_orchestrator.Base.Raise.{
  Error, Result, ok, raise, campaign_runner_error, require_all, raise_if, ◌>>=◌, ◌>>◌,
}
use agf_orchestrator.Base.Text.{
  str_eq, starts_with, has_text, len_le, is_nonempty, is_hex_text, codes,
}

-- What `strptime` and `strftime` of the platform do at the format `%Y-%m-%dT%H:%M:%SZ`; a time is a number of
-- seconds.
pub record Calendar : Type 0 where
  pub print : ℕ → String
  pub parse : String → Option ℕ
  pub parse-print : (t : ℕ) → parse (print t) ≡ some t
  pub print_filled : (t : ℕ) → is_nonempty (print t) ≡ true

pub data CampaignStatus : Type 0 where
  running waiting_ci waiting_review waiting_github waiting_artifact : CampaignStatus
  waiting_deployment waiting_provider waiting_external retry_backoff : CampaignStatus
  complete no_justified_work human_required blocked_non_retryable cancelled : CampaignStatus

-- The value of the enumeration.
abbrev pub status_value : CampaignStatus → String
status_value running = "RUNNING"
status_value waiting_ci = "WAITING_CI"
status_value waiting_review = "WAITING_REVIEW"
status_value waiting_github = "WAITING_GITHUB"
status_value waiting_artifact = "WAITING_ARTIFACT"
status_value waiting_deployment = "WAITING_DEPLOYMENT"
status_value waiting_provider = "WAITING_PROVIDER"
status_value waiting_external = "WAITING_EXTERNAL"
status_value retry_backoff = "RETRY_BACKOFF"
status_value complete = "COMPLETE"
status_value no_justified_work = "NO_JUSTIFIED_WORK"
status_value human_required = "HUMAN_REQUIRED"
status_value blocked_non_retryable = "BLOCKED_NON_RETRYABLE"
status_value cancelled = "CANCELLED"

-- `WAITING_STATUSES`
abbrev pub is_waiting : CampaignStatus → Bool
is_waiting waiting_ci = true
is_waiting waiting_review = true
is_waiting waiting_github = true
is_waiting waiting_artifact = true
is_waiting waiting_deployment = true
is_waiting waiting_provider = true
is_waiting waiting_external = true
is_waiting retry_backoff = true
is_waiting _ = false

-- `TERMINAL_STATUSES`
abbrev pub is_terminal : CampaignStatus → Bool
is_terminal complete = true
is_terminal no_justified_work = true
is_terminal human_required = true
is_terminal blocked_non_retryable = true
is_terminal cancelled = true
is_terminal _ = false

pub record CampaignEvent : Type 0 where
  pub sequence : ℕ
  pub event_type : String
  pub status : String
  pub timestamp : String
  pub summary : String

pub record CampaignState : Type 0 where
  pub schema_version : String
  pub campaign_id : String
  pub project_id : String
  pub session_id : String
  pub status : CampaignStatus
  pub phase : String
  pub reason : Option String
  pub resource : Option String
  pub expected_condition : Option String
  pub created_at : String
  pub updated_at : String
  pub waiting_since : Option String
  pub next_check_at : Option String
  pub lease_owner : Option String
  pub lease_expires_at : Option String
  pub retry_count : ℕ
  pub retry_budget : ℕ
  pub operation_id : String
  pub target_sha : String
  pub lineage_binding : String
  pub wake_generation : ℕ
  pub event_sequence : ℕ
  pub events : List CampaignEvent
  pub policy_binding : Option String
  pub authority_generation : Option ℕ

-- `_MAX_TEXT`, `_MAX_EVENTS` and `_MAX_RETRY_BUDGET`
abbrev pub max_text : ℕ
max_text = 4000

abbrev pub max_events : ℕ
max_events = 500

abbrev pub max_retry_budget : ℕ
max_retry_budget = 1000

-- `value is None or p(value)`
abbrev pub none_or {ℓ} : {A : Type ℓ} → (A → Bool) → Option A → Bool
none_or p none = true
none_or p (some a) = p a

abbrev pub is_none {ℓ} : {A : Type ℓ} → Option A → Bool
is_none none = true
is_none (some a) = false

-- `bool(value)` of an optional text
abbrev pub is_given : Option String → Bool
is_given none = false
is_given (some s) = is_nonempty s

-- `c in text`
abbrev pub has_char : ℕ → String → Bool
has_char c text = any (λ d. c == d) (codes text)

abbrev pub is_bound_id : String → String → Bool
is_bound_id prefix value =
    starts_with value prefix && not (has_char b'/' value) && not (has_char b'\\' value)

-- `value.strip() and len(value) <= _MAX_TEXT`
abbrev pub is_text : String → Bool
is_text value = has_text value && len_le value max_text

-- `_SHA.fullmatch(value)`
abbrev pub is_sha : String → Bool
is_sha value = is_hex_text "" 40 value

abbrev pub is_time : Calendar → String → Bool
is_time calendar value = not (is_none (calendar.parse value))

abbrev pub timed : Option ℕ → Result ℕ
timed none = raise (campaign_runner_error "campaign timestamp is invalid")
timed (some t) = ok t

-- `parse_timestamp`
abbrev pub parse_timestamp : Calendar → String → Result ℕ
parse_timestamp calendar value = timed (calendar.parse value)

-- The tests of the loop over the events in `validate`.
abbrev pub event_checks : Calendar → ℕ → List CampaignEvent → List (Bool × Error)
event_checks calendar expected [] = []
event_checks calendar expected (e ∷ es) =
    (
      (e.sequence == expected) && has_text e.event_type && has_text e.summary,
      campaign_runner_error "campaign event is invalid",
    )
    ∷ (is_time calendar e.timestamp, campaign_runner_error "campaign timestamp is invalid")
    ∷ event_checks calendar (suc expected) es

-- The tests on the wake condition and its schedule.
abbrev pub schedule_checks : CampaignState → List (Bool × Error)
schedule_checks s =
    if is_waiting s.status
    then (
      is_given s.reason && is_given s.resource && is_given s.expected_condition,
      campaign_runner_error "waiting campaign requires wake condition",
    )
      ∷ (
        is_given s.waiting_since && is_given s.next_check_at,
        campaign_runner_error "waiting campaign requires schedule",
      )
      ∷ []
    else (
      is_none s.waiting_since && is_none s.next_check_at,
      campaign_runner_error "non-waiting campaign cannot retain wake schedule",
    )
      ∷ []

-- The tests on identities, texts and times.
abbrev pub text_checks : Calendar → CampaignState → List (Bool × Error)
text_checks calendar s =
    (str_eq s.schema_version "1.0", campaign_runner_error "campaign schema_version must be 1.0")
    ∷ (is_bound_id "campaign-" s.campaign_id, campaign_runner_error "campaign_id is invalid")
    ∷ (is_bound_id "project-" s.project_id, campaign_runner_error "project_id is invalid")
    ∷ (is_bound_id "session-" s.session_id, campaign_runner_error "session_id is invalid")
    ∷ (is_bound_id "operation-" s.operation_id, campaign_runner_error "operation_id is invalid")
    ∷ (is_text s.phase, campaign_runner_error "campaign phase is invalid")
    ∷ (none_or is_text s.reason, campaign_runner_error "campaign reason is invalid")
    ∷ (none_or is_text s.resource, campaign_runner_error "campaign resource is invalid")
    ∷ (
      none_or is_text s.expected_condition,
      campaign_runner_error "campaign expected_condition is invalid",
    )
    ∷ (is_time calendar s.created_at, campaign_runner_error "campaign timestamp is invalid")
    ∷ (is_time calendar s.updated_at, campaign_runner_error "campaign timestamp is invalid")
    ∷ (
      none_or (is_time calendar) s.waiting_since,
      campaign_runner_error "campaign timestamp is invalid",
    )
    ∷ (
      none_or (is_time calendar) s.next_check_at,
      campaign_runner_error "campaign timestamp is invalid",
    )
    ∷ (
      none_or (is_time calendar) s.lease_expires_at,
      campaign_runner_error "campaign timestamp is invalid",
    )
    ∷ []

abbrev pub same_presence : Option String → Option String → Bool
same_presence none none = true
same_presence (some a) (some b) = true
same_presence _ _ = false

abbrev pub lease_checks : CampaignState → List (Bool × Error)
lease_checks s =
    (
      same_presence s.lease_owner s.lease_expires_at,
      campaign_runner_error "campaign lease fields must be paired",
    )
    ∷ []

-- The tests on the counters and bindings.
abbrev pub counter_checks : CampaignState → List (Bool × Error)
counter_checks s =
    (leb s.retry_budget max_retry_budget, campaign_runner_error "retry_budget is invalid")
    ∷ (leb s.retry_count s.retry_budget, campaign_runner_error "retry_count exceeds retry_budget")
    ∷ (is_sha s.target_sha, campaign_runner_error "target_sha is invalid")
    ∷ (has_text s.lineage_binding, campaign_runner_error "lineage_binding is invalid")
    ∷ (none_or has_text s.policy_binding, campaign_runner_error "policy_binding is invalid")
    ∷ (
      none_or (leb 1) s.authority_generation,
      campaign_runner_error "authority_generation is invalid",
    )
    ∷ (
      leb (length s.events) max_events && length s.events == s.event_sequence,
      campaign_runner_error "campaign event journal is invalid",
    )
    ∷ []

-- `CampaignState.validate`
unfoldable pub validate : Calendar → CampaignState → Result (Unit {0})
validate calendar s = do
  require_all (text_checks calendar s)
  require_all (lease_checks s)
  require_all (schedule_checks s)
  require_all (counter_checks s)
  require_all (event_checks calendar 1 s.events)

-- The project and the campaign of a store.
pub record StoreKey : Type 0 where
  pub project_id : String
  pub campaign_id : String

-- `_validate_identity`
unfoldable pub validate_identity : Calendar → StoreKey → CampaignState → Result (Unit {0})
validate_identity calendar key s = do
  validate calendar s
  raise_if (not (str_eq s.project_id key.project_id) || not (str_eq s.campaign_id key.campaign_id))
      (campaign_runner_error "campaign state identity does not match store")
