-- ===== src/Tests/Capabilities.antt =====
-- Capability selection (src/agf_orchestrator/capability_selection.py) on concrete inputs.
use agf_orchestrator.Base.{
  ◌≡◌, refl, none, some, List, [], ◌∷◌, map, String, true, false, length, ◌==◌,
}
use agf_orchestrator.Base.Int.{pos}
use agf_orchestrator.Base.Order.{sorted_set}
use agf_orchestrator.Base.Raise.{ok}
use agf_orchestrator.Base.Text.{
  has_text, len_le, is_space, starts_with, has_secret, is_identifier, is_hex_text, is_timestamp,
  str_lt, is_decimal,
}
use agf_orchestrator.Base.Text.Tokens.{has_token}
use agf_orchestrator.Capability.Profiles.{
  CapabilityStatus, supported, unknown, CapabilityProfile, Platform, validate, validate_at,
  validate_capabilities, validate_observation,
}
use agf_orchestrator.Capability.Selection.{
  SelectionGates, CapabilityCandidate, Request, required, order_candidates, SelectionResult, select,
  loop, round, reason_of, rejection_reason,
}
use agf_orchestrator.Capability.Selection.First.{choice, Answers, select-Answers}
use agf_orchestrator.Capability.Selection.Eligible.{Among}
use agf_orchestrator.Capability.Selection.Passed.{Passes, select-Passes}

abbrev hash : String
hash = "0123456789abcdef0123456789abcdef0123456789abcdef0123456789abcdef"

abbrev platform : Platform
platform = record {
  sha256_text = λ text. hash;
  content_hash = λ profile. hash;
  instant = λ text. some 5;
  repr = λ text. text;
}

abbrev profile : String → CapabilityStatus → CapabilityProfile
profile provider status = record {
  schema_version = "1.0";
  profile_id = "profile-a";
  project_id = "project-1";
  provider_id = provider;
  profile_version = pos 1;
  provenance_source = "a benchmark";
  provenance_sha256 = hash;
  observed_at = "2025-01-01T00:00:00Z";
  expires_at = none;
  capabilities = record { name = "code"; status = status; value = some "yes" } ∷ [];
  profile_sha256 = hash;
}

-- The first candidate's capability is unknown; the second is chosen as a fallback.
abbrev candidates : List CapabilityCandidate
candidates =
    record { profile = profile "provider-b" supported; priority = pos 2; diagnostic_only = false }
    ∷ record { profile = profile "provider-a" unknown; priority = pos 1; diagnostic_only = false }
    ∷ []

abbrev gates : SelectionGates
gates = record {
  policy_eligible = some true;
  privacy_eligible = some true;
  independence_eligible = some true;
  budget_eligible = some true;
  health_eligible = some true;
  empirical_evidence_eligible = some true;
  allow_fallback = true;
}

abbrev request : Request
request = record {
  project_id = "project-1";
  required_capabilities = "code" ∷ [];
  now = "2025-01-02T00:00:00Z";
  gates = some gates;
  precomputed_rejections = λ provider. none;
}

abbrev result : SelectionResult
result = record {
  provider_id = "provider-b";
  profile_id = "profile-a";
  fallback_used = true;
  considered_candidates = "provider-a" ∷ "provider-b" ∷ [];
  rejected_reasons = "provider-a: required capability is not supported: code" ∷ [];
}

asked : (length (required request) == 0) ≡ false
unfolding sorted_set
asked = refl

selected : select platform request candidates ≡ ok result
unfolding select loop round reason_of rejection_reason validate validate_at validate_capabilities
    validate_observation sorted_set str_lt has_text len_le is_space starts_with has_secret has_token
    is_identifier is_hex_text is_timestamp is_decimal
selected = refl

select-Answers_example :
    Answers
      (choice platform request (order_candidates candidates))
      (map (λ c. c.profile.provider_id) (order_candidates candidates))
      (select platform request candidates)
select-Answers_example = select-Answers platform request candidates asked

select-Passes_example :
    (c : CapabilityCandidate) × Among platform request c candidates
    × Passes platform request c
    × ("provider-b" ≡ c.profile.provider_id)
    × ("profile-a" ≡ c.profile.profile_id)
select-Passes_example = select-Passes platform request candidates result selected
