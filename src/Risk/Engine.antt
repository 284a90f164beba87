-- ===== src/Risk/Engine.antt =====
-- The deterministic aggregation of risk facts (src/agf_orchestrator/risk_engine.py).
pub mod Level
use Prim.Native.String.{◌++◌}
use agf_orchestrator.Base.{
  ℕ, Bool, true, false, not, ◌&&◌, ◌||◌, Option, none, some, List, [], ◌∷◌, String, leb, ltb,
  length, all, if◌then◌else◌,
}
use agf_orchestrator.Base.Int.{ℤ, pos, ltb_ℤ, eq_ℤ}
use agf_orchestrator.Base.Raise.{Error, Result, ok, raise, risk_engine_error, raise_if, ◌>>=◌, ◌>>◌}
use agf_orchestrator.Base.Show.{show_ℕ, show_ℤ}
use agf_orchestrator.Base.Text.{has_text}
use agf_orchestrator.Roadmap.Models.{is_empty}
use agf_orchestrator.Risk.Models.{
  RiskLevel, SignalLevel, RollbackDifficulty, RiskSignal, RiskAssessment, max_level, rollback_value,
  is_negative, level_number, validate,
}

-- The arguments of `assess_risk`.
pub record RiskFacts : Type 0 where
  pub assessment_id : String
  pub project_id : String
  pub task_id : String
  pub changed_paths : List String
  pub protected_paths : List String
  pub rollback_difficulty : RollbackDifficulty
  pub incident_count : Option ℤ
  pub reviewer_blockers : ℤ
  pub validation_passed : Bool
  pub evidence_refs : List String

-- `_change_level`
abbrev change_level : ℕ → SignalLevel
change_level count =
    if leb count 3
    then SignalLevel.low
    else if leb count 10
    then SignalLevel.medium
    else SignalLevel.high

-- `_rollback_level`
abbrev rollback_level : RollbackDifficulty → SignalLevel
rollback_level RollbackDifficulty.easy = SignalLevel.low
rollback_level RollbackDifficulty.moderate = SignalLevel.medium
rollback_level RollbackDifficulty.hard = SignalLevel.high
rollback_level RollbackDifficulty.unknown = SignalLevel.unknown

-- The level of `signal-incidents`.
abbrev incident_level : Option ℤ → SignalLevel
incident_level none = SignalLevel.unknown
incident_level (some n) = if eq_ℤ n (pos 0) then SignalLevel.low else SignalLevel.high

abbrev incident_text : Option ℤ → String
incident_text none = "UNKNOWN"
incident_text (some n) = show_ℤ n

abbrev high_if : Bool → SignalLevel
high_if b = if b then SignalLevel.high else SignalLevel.low

abbrev signal : String → String → SignalLevel → String → List String → RiskSignal
signal signal_id category level value refs = record {
  signal_id = signal_id;
  category = category;
  level = level;
  value = value;
  evidence_refs = refs;
}

-- `signals`
abbrev pub risk_signals : RiskFacts → List RiskSignal
risk_signals f =
    signal "signal-change-size" "CHANGE_SIZE" (change_level (length f.changed_paths))
      ("changed_paths=" ++ show_ℕ (length f.changed_paths)) f.evidence_refs
    ∷ signal "signal-protected-path" "PROTECTED_PATH" (high_if (not (is_empty f.protected_paths)))
        ("protected_paths=" ++ show_ℕ (length f.protected_paths)) f.evidence_refs
    ∷ signal "signal-rollback" "ROLLBACK_DIFFICULTY" (rollback_level f.rollback_difficulty)
        ("rollback=" ++ rollback_value f.rollback_difficulty) f.evidence_refs
    ∷ signal "signal-incidents" "INCIDENT_HISTORY" (incident_level f.incident_count)
        ("incidents=" ++ incident_text f.incident_count) f.evidence_refs
    ∷ signal "signal-review" "REVIEW_FINDINGS" (high_if (not (eq_ℤ f.reviewer_blockers (pos 0))))
        ("reviewer_blockers=" ++ show_ℤ f.reviewer_blockers) f.evidence_refs
    ∷ signal "signal-validation" "VALIDATION" (high_if (not f.validation_passed))
        ("validation_passed=" ++ (if f.validation_passed then "True" else "False")) f.evidence_refs
    ∷ []

-- `_aggregate_level`, with the level so far: UNKNOWN returns CRITICAL at once.
unfoldable pub aggregate_from : RiskLevel → List RiskSignal → RiskLevel
aggregate_from level [] = level
aggregate_from level (s ∷ ss) = elim s.level [
  | SignalLevel.unknown ↦ RiskLevel.critical
  | SignalLevel.low ↦ aggregate_from (max_level level RiskLevel.low) ss
  | SignalLevel.medium ↦ aggregate_from (max_level level RiskLevel.medium) ss
  | SignalLevel.high ↦ aggregate_from (max_level level RiskLevel.high) ss
  | SignalLevel.critical ↦ aggregate_from (max_level level RiskLevel.critical) ss
]

unfoldable pub aggregate_level : List RiskSignal → RiskLevel
unfolding aggregate_from
aggregate_level = aggregate_from RiskLevel.low

-- The level of the assessment: protected paths set it to CRITICAL.
unfoldable pub assessed_level : RiskFacts → RiskLevel
unfolding aggregate_level
assessed_level f =
    if not (is_empty f.protected_paths)
    then RiskLevel.critical
    else aggregate_level (risk_signals f)

unfoldable pub assessment : RiskFacts → RiskAssessment
unfolding assessed_level
assessment f = record {
  schema_version = "1.0";
  assessment_id = f.assessment_id;
  project_id = f.project_id;
  task_id = f.task_id;
  level = assessed_level f;
  signals = risk_signals f;
  rollback_difficulty = f.rollback_difficulty;
  incident_count = f.incident_count;
  protected_paths = f.protected_paths;
  evidence_refs = f.evidence_refs;
}

-- `assess_risk`
unfoldable pub assess_risk : RiskFacts → Result RiskAssessment
unfolding assessment
assess_risk f = do
  raise_if (is_empty f.changed_paths || ltb 200 (length f.changed_paths))
      (risk_engine_error "changed_paths are invalid")
  raise_if (not (all has_text f.changed_paths)) (risk_engine_error "changed_paths are invalid")
  raise_if (is_negative f.incident_count) (risk_engine_error "incident_count is invalid")
  raise_if (ltb_ℤ f.reviewer_blockers (pos 0)) (risk_engine_error "reviewer_blockers is invalid")
  validate (assessment f)
  ok (assessment f)
