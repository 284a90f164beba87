-- ===== src/Tests/Risks.antt =====
-- The risk engine (src/agf_orchestrator/risk_engine.py) on concrete inputs.
use agf_orchestrator.Base.{◌≡◌, refl, true, some, [], ◌∷◌}
use agf_orchestrator.Base.Int.{pos}
use agf_orchestrator.Base.Raise.{ok}
use agf_orchestrator.Base.Show.{show_ℕ, show_ℤ}
use agf_orchestrator.Base.Text.{is_identifier, has_text, len_le, is_space, has_secret}
use agf_orchestrator.Risk.Models.{
  RiskLevel, RollbackDifficulty, validate_head, validate_signal, highest_level, validate,
}
use agf_orchestrator.Risk.Engine.{RiskFacts, risk_signals, assessment, assess_risk}
use agf_orchestrator.Risk.Engine.Level.{required_level, assess_risk-level}

abbrev facts : RiskFacts
facts = record {
  assessment_id = "risk-1";
  project_id = "project-1";
  task_id = "task-1";
  changed_paths = "a.py" ∷ "b.py" ∷ "c.py" ∷ "d.py" ∷ [];
  protected_paths = [];
  rollback_difficulty = RollbackDifficulty.easy;
  incident_count = some (pos 0);
  reviewer_blockers = pos 0;
  validation_passed = true;
  evidence_refs = "report.json" ∷ [];
}

assesses : assess_risk facts ≡ ok (assessment facts)
unfolding assess_risk validate validate_head highest_level validate_signal is_identifier has_text
    len_le is_space has_secret show_ℤ show_ℕ
assesses = refl

level_of_facts : required_level facts ≡ RiskLevel.medium
level_of_facts = refl

assess_risk-level_example :
    (validate (assessment facts) ≡ ok tt) × ((assessment facts).level ≡ required_level facts)
assess_risk-level_example = assess_risk-level facts (assessment facts) assesses

head_valid : validate_head (assessment facts) ≡ ok tt
unfolding validate_head assessment is_identifier has_text len_le is_space has_secret
head_valid = refl

loop_valid : highest_level (risk_signals facts) [] RiskLevel.low ≡ ok RiskLevel.medium
unfolding highest_level validate_signal is_identifier has_text len_le is_space has_secret show_ℤ
    show_ℕ
loop_valid = refl
