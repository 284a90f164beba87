-- ===== src/Merge/Models.antt =====
-- Gate evidence and merge decisions (src/agf_orchestrator/merge_models.py). The fields have the types that the
-- source annotates; its `isinstance` checks are those types.
use Prim.Native.String.{◌++◌}
use agf_orchestrator.Base.{
  Bool, true, false, not, ◌&&◌, ◌||◌, Option, none, some, List, [], ◌∷◌, String, ltb, length,
}
use agf_orchestrator.Base.Int.{ℤ, pos, ltb_ℤ}
use agf_orchestrator.Base.Raise.{Result, ok, raise, merge_validation_error, raise_if, ◌>>◌}
use agf_orchestrator.Base.Text.{
  str_eq, str_mem, is_nonempty, has_text, len_le, has_secret, is_revision, is_hex_text,
  is_gate_name, is_decision_id,
}
use agf_orchestrator.Risk.Models as Risks
use agf_orchestrator.Risk.Models.{RiskLevel, RiskAssessment}
use agf_orchestrator.Roadmap.Models.{is_empty}

pub data GateStatus : Type 0 where
  pass fail missing stale contradictory unknown : GateStatus

pub data RiskClass : Type 0 where
  low medium high critical unknown : RiskClass

pub data DecisionStatus : Type 0 where
  eligible blocked : DecisionStatus

pub data AuthorizationStatus : Type 0 where
  not_authorized authorized : AuthorizationStatus

abbrev pub gate_value : GateStatus → String
gate_value pass = "PASS"
gate_value fail = "FAIL"
gate_value missing = "MISSING"
gate_value stale = "STALE"
gate_value contradictory = "CONTRADICTORY"
gate_value GateStatus.unknown = "UNKNOWN"

abbrev pub class_value : RiskClass → String
class_value low = "LOW"
class_value medium = "MEDIUM"
class_value high = "HIGH"
class_value critical = "CRITICAL"
class_value RiskClass.unknown = "UNKNOWN"

abbrev pub is_pass : GateStatus → Bool
is_pass pass = true
is_pass _ = false

-- `a is b`
abbrev pub class_is : RiskClass → RiskClass → Bool
class_is low low = true
class_is medium medium = true
class_is high high = true
class_is critical critical = true
class_is RiskClass.unknown RiskClass.unknown = true
class_is _ _ = false

-- `RiskClass(level.name)`
abbrev pub class_of_level : RiskLevel → RiskClass
class_of_level RiskLevel.low = low
class_of_level RiskLevel.medium = medium
class_of_level RiskLevel.high = high
class_of_level RiskLevel.critical = critical

pub record GateEvidence : Type 0 where
  pub name : String
  pub status : GateStatus
  pub evidence_refs : List String
  pub observed_at : String
  pub freshness : String
  pub detail : String

-- `_text`, with no pattern.
unfoldable merge_text : String → Bool → String → Result (Unit {0})
merge_text label allow_empty value = do
  raise_if (not (len_le value 4000) || has_secret value)
      (merge_validation_error (label ++ " is invalid"))
  raise_if (not allow_empty && not (has_text value))
      (merge_validation_error (label ++ " is invalid"))

unfoldable merge_texts : String → List String → Result (Unit {0})
unfolding merge_text
merge_texts label [] = ok tt
merge_texts label (v ∷ vs) = merge_text label false v >> merge_texts label vs

-- `_strings`
unfoldable merge_strings : String → Bool → List String → Result (Unit {0})
unfolding merge_texts
merge_strings label allow_empty values = do
  raise_if (ltb 200 (length values)) (merge_validation_error (label ++ " is invalid"))
  raise_if (not allow_empty && is_empty values) (merge_validation_error (label ++ " is invalid"))
  merge_texts label values

-- Whether `datetime.fromisoformat` reads a text as a time with a zone that is not in the future.
abbrev pub Observed : Type 0
Observed = String → Bool

-- `GateEvidence.validate`
unfoldable pub validate_gate : Observed → GateEvidence → Result (Unit {0})
unfolding merge_text merge_strings
validate_gate observed gate = do
  merge_text "gate name" false gate.name
  raise_if (not (is_gate_name gate.name)) (merge_validation_error "gate name is invalid")
  merge_strings "evidence_refs" false gate.evidence_refs
  merge_text "observed_at" true gate.observed_at
  raise_if (is_nonempty gate.observed_at && not (observed gate.observed_at))
      (merge_validation_error "observed_at is invalid")
  merge_text "freshness" true gate.freshness
  merge_text "detail" true gate.detail

pub record MergeDecision : Type 0 where
  pub schema_version : String
  pub decision_id : String
  pub project_id : String
  pub task_id : String
  pub base_sha : String
  pub delivery_sha : String
  pub risk_class : RiskClass
  pub gates : List GateEvidence
  pub policy_id : String
  pub policy_version : String
  pub constitution_id : String
  pub decision_status : DecisionStatus
  pub authorization_status : AuthorizationStatus
  pub blocking_reasons : List String
  pub evidence_hash : String
  pub integrity_hash : String
  pub expiry : String
  pub policy_hash : String
  pub risk_assessment : Option RiskAssessment
  pub authority_generation : ℤ
  pub kill_switch_active : Bool

-- The loop over the gates in `validate`, with the names seen before.
unfoldable validate_gates : Observed → List GateEvidence → List String → Result (Unit {0})
unfolding validate_gate
validate_gates observed [] names = ok tt
validate_gates observed (gate ∷ gates) names = do
  validate_gate observed gate
  raise_if (str_mem gate.name names) (merge_validation_error "gate names must be unique")
  validate_gates observed gates (gate.name ∷ names)

-- `except (TypeError, ValueError) as exc: raise MergeValidationError("risk assessment is invalid")`
abbrev as_merge_error : Result (Unit {0}) → Result (Unit {0})
as_merge_error (ok a) = ok a
as_merge_error (raise e) = raise (merge_validation_error "risk assessment is invalid")

-- The check of the attached risk assessment in `validate`.
unfoldable validate_assessment : MergeDecision → Option RiskAssessment → Result (Unit {0})
validate_assessment d none = ok tt
validate_assessment d (some a) = do
  as_merge_error (Risks.validate a)
  raise_if (not (str_eq a.project_id d.project_id) || not (str_eq a.task_id d.task_id))
      (merge_validation_error "risk assessment identity does not match decision")
  raise_if (not (class_is (class_of_level a.level) d.risk_class))
      (merge_validation_error "risk assessment does not match decision risk")

abbrev pub is_authorized : AuthorizationStatus → Bool
is_authorized authorized = true
is_authorized not_authorized = false

abbrev pub is_eligible : DecisionStatus → Bool
is_eligible eligible = true
is_eligible blocked = false

-- The checks of `validate` on the two statuses and the reasons.
unfoldable validate_statuses : MergeDecision → Result (Unit {0})
validate_statuses d = do
  raise_if (not (is_eligible d.decision_status) && is_authorized d.authorization_status)
      (merge_validation_error "blocked decisions cannot authorize")
  raise_if (not (is_eligible d.decision_status) && is_empty d.blocking_reasons)
      (merge_validation_error "blocked decisions need reasons")
  raise_if (is_authorized d.authorization_status && not (is_eligible d.decision_status))
      (merge_validation_error "only eligible decisions can authorize")
  raise_if (is_authorized d.authorization_status && not (is_empty d.blocking_reasons))
      (merge_validation_error "authorized decisions cannot have blockers")
  raise_if
      (is_authorized d.authorization_status
        && (is_nonempty d.policy_hash && ltb_ℤ d.authority_generation (pos 1)))
      (merge_validation_error "authorized decisions need authority generation")

-- The checks of `validate` on the decision's identities.
unfoldable validate_identities : MergeDecision → Result (Unit {0})
unfolding merge_text
validate_identities d = do
  raise_if (not (str_eq d.schema_version "1.0"))
      (merge_validation_error "schema_version must be 1.0")
  merge_text "decision_id" false d.decision_id
  merge_text "project_id" false d.project_id
  merge_text "task_id" false d.task_id
  merge_text "policy_id" false d.policy_id
  merge_text "policy_version" false d.policy_version
  merge_text "constitution_id" false d.constitution_id
  raise_if (not (is_decision_id d.decision_id)) (merge_validation_error "decision_id is invalid")
  raise_if (not (is_revision d.base_sha) || not (is_revision d.delivery_sha))
      (merge_validation_error "revision identity is invalid")

-- The checks of `validate` on gates, reasons, hashes and generation.
unfoldable validate_evidence : Observed → MergeDecision → Result (Unit {0})
unfolding validate_gates merge_strings merge_text
validate_evidence observed d = do
  raise_if (is_empty d.gates || ltb 200 (length d.gates))
      (merge_validation_error "gates must contain 1 to 200 items")
  validate_gates observed d.gates []
  merge_strings "blocking_reasons" true d.blocking_reasons
  raise_if (not (is_hex_text "" 64 d.evidence_hash) || not (is_hex_text "" 64 d.integrity_hash))
      (merge_validation_error "decision hashes are invalid")
  merge_text "expiry" true d.expiry
  raise_if (is_nonempty d.policy_hash && not (is_hex_text "" 64 d.policy_hash))
      (merge_validation_error "policy hash is invalid")
  raise_if (ltb_ℤ d.authority_generation (pos 0))
      (merge_validation_error "authority generation is invalid")

-- `MergeDecision.validate`
unfoldable pub validate : Observed → MergeDecision → Result (Unit {0})
unfolding validate_identities validate_evidence validate_assessment validate_statuses
validate observed d = do
  validate_identities d
  validate_evidence observed d
  validate_assessment d d.risk_assessment
  validate_statuses d
