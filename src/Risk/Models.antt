-- ===== src/Risk/Models.antt =====
-- Risk signals and assessments (src/agf_orchestrator/risk_models.py). The fields have the types that the source
-- annotates; its `isinstance` checks are those types.
use Prim.Native.String.{◌++◌}
use agf_orchestrator.Base.{
  ℕ, Bool, true, false, not, ◌&&◌, ◌||◌, Option, none, some, List, [], ◌∷◌, String, ltb, length,
  if◌then◌else◌,
}
use agf_orchestrator.Base.Int.{ℤ, pos, ltb_ℤ}
use agf_orchestrator.Base.Raise.{Result, ok, risk_validation_error, raise_if, ◌>>=◌, ◌>>◌}
use agf_orchestrator.Base.Text.{str_eq, str_mem, is_identifier, is_bounded_text, has_secret}
use agf_orchestrator.Roadmap.Models.{is_empty}

pub data RiskLevel : Type 0 where
  low medium high critical : RiskLevel

pub data SignalLevel : Type 0 where
  low medium high critical unknown : SignalLevel

pub data RollbackDifficulty : Type 0 where
  easy moderate hard unknown : RollbackDifficulty

-- The value of the `IntEnum`.
abbrev pub level_number : RiskLevel → ℕ
level_number RiskLevel.low = 1
level_number RiskLevel.medium = 2
level_number RiskLevel.high = 3
level_number RiskLevel.critical = 4

abbrev level_name : RiskLevel → String
level_name RiskLevel.low = "LOW"
level_name RiskLevel.medium = "MEDIUM"
level_name RiskLevel.high = "HIGH"
level_name RiskLevel.critical = "CRITICAL"

-- `max(a, b)`
abbrev pub max_level : RiskLevel → RiskLevel → RiskLevel
max_level a b = if ltb (level_number a) (level_number b) then b else a

-- `a is b`
abbrev pub level_is : RiskLevel → RiskLevel → Bool
level_is RiskLevel.low RiskLevel.low = true
level_is RiskLevel.medium RiskLevel.medium = true
level_is RiskLevel.high RiskLevel.high = true
level_is RiskLevel.critical RiskLevel.critical = true
level_is _ _ = false

abbrev pub is_unknown_rollback : RollbackDifficulty → Bool
is_unknown_rollback RollbackDifficulty.unknown = true
is_unknown_rollback _ = false

abbrev pub rollback_value : RollbackDifficulty → String
rollback_value RollbackDifficulty.easy = "EASY"
rollback_value RollbackDifficulty.moderate = "MODERATE"
rollback_value RollbackDifficulty.hard = "HARD"
rollback_value RollbackDifficulty.unknown = "UNKNOWN"

pub record RiskSignal : Type 0 where
  pub signal_id : String
  pub category : String
  pub level : SignalLevel
  pub value : String
  pub evidence_refs : List String

pub record RiskAssessment : Type 0 where
  pub schema_version : String
  pub assessment_id : String
  pub project_id : String
  pub task_id : String
  pub level : RiskLevel
  pub signals : List RiskSignal
  pub rollback_difficulty : RollbackDifficulty
  pub incident_count : Option ℤ
  pub protected_paths : List String
  pub evidence_refs : List String

-- `_bounded_text`
unfoldable risk_text : String → String → Result (Unit {0})
risk_text label value =
    raise_if (not (is_bounded_text value && not (has_secret value)))
      (risk_validation_error (label ++ " is invalid"))

unfoldable risk_texts : String → List String → Result (Unit {0})
unfolding risk_text
risk_texts label [] = ok tt
risk_texts label (v ∷ vs) = risk_text label v >> risk_texts label vs

-- `_bounded_list` with `allow_empty=True`
unfoldable risk_list : String → List String → Result (Unit {0})
unfolding risk_texts
risk_list label values = do
  raise_if (ltb 200 (length values)) (risk_validation_error (label ++ " is invalid"))
  risk_texts label values

-- `_validate_signal`, against the identities seen before.
unfoldable pub validate_signal : RiskSignal → List String → Result (Unit {0})
unfolding risk_list risk_text
validate_signal signal seen = do
  raise_if (not (is_identifier "signal-" signal.signal_id))
      (risk_validation_error "signal is invalid")
  raise_if (str_mem signal.signal_id seen) (risk_validation_error "signal IDs must be unique")
  risk_text "signal category" signal.category
  risk_text "signal value" signal.value
  risk_list "signal evidence_refs" signal.evidence_refs

-- One round of the loop for the highest level: UNKNOWN sets it to CRITICAL.
abbrev pub raise_level : RiskLevel → SignalLevel → RiskLevel
raise_level highest SignalLevel.unknown = RiskLevel.critical
raise_level highest SignalLevel.low = max_level highest RiskLevel.low
raise_level highest SignalLevel.medium = max_level highest RiskLevel.medium
raise_level highest SignalLevel.high = max_level highest RiskLevel.high
raise_level highest SignalLevel.critical = max_level highest RiskLevel.critical

-- The loop over the signals in `validate`: the highest level.
unfoldable pub highest_level : List RiskSignal → List String → RiskLevel → Result RiskLevel
highest_level [] seen highest = ok highest
highest_level (signal ∷ signals) seen highest =
    validate_signal signal seen
    >> highest_level signals (signal.signal_id ∷ seen) (raise_level highest signal.level)

abbrev pub is_negative : Option ℤ → Bool
is_negative none = false
is_negative (some n) = ltb_ℤ n (pos 0)

-- The checks of `validate` before its loop.
unfoldable pub validate_head : RiskAssessment → Result (Unit {0})
unfolding risk_list
validate_head a = do
  raise_if (not (str_eq a.schema_version "1.0"))
      (risk_validation_error "schema_version must be 1.0")
  raise_if (not (is_identifier "risk-" a.assessment_id))
      (risk_validation_error "assessment_id is invalid")
  raise_if (not (is_identifier "project-" a.project_id))
      (risk_validation_error "project_id is invalid")
  raise_if (not (is_identifier "task-" a.task_id)) (risk_validation_error "task_id is invalid")
  raise_if (is_negative a.incident_count) (risk_validation_error "incident_count is invalid")
  risk_list "protected_paths" a.protected_paths
  risk_list "evidence_refs" a.evidence_refs
  raise_if (not (is_empty a.protected_paths) && not (level_is a.level RiskLevel.critical))
      (risk_validation_error "protected paths require CRITICAL risk")
  raise_if (is_empty a.signals || ltb 200 (length a.signals))
      (risk_validation_error "signals must contain 1 to 200 items")

-- `RiskAssessment.validate`
unfoldable pub validate : RiskAssessment → Result (Unit {0})
unfolding validate_head
validate a = do
  validate_head a
  highest ← highest_level a.signals [] RiskLevel.low
  raise_if (ltb (level_number a.level) (level_number highest))
      (risk_validation_error ("assessment level is lower than required " ++ level_name highest))
  raise_if (is_unknown_rollback a.rollback_difficulty && not (level_is a.level RiskLevel.critical))
      (risk_validation_error "unknown rollback difficulty requires CRITICAL risk")
