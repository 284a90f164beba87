-- ===== src/Risk/Engine/Level.antt =====
-- The level that `assess_risk` gives.
use agf_orchestrator.Base.{
  ◌≡◌, refl, sym, ap, ◌∙◌, subst, Bool, true, false, not, ◌&&◌, ◌||◌, Option, none, some, List, [],
  ◌∷◌, String, arith, length, leb, ltb, all, if◌then◌else◌,
}
use agf_orchestrator.Base.Int.{ℤ, pos, eq_ℤ, ltb_ℤ}
use agf_orchestrator.Base.Text.{has_text}
use agf_orchestrator.Base.Raise.{risk_engine_error, ok, raise_if, >>=-eq-ok, ok-injective}
use agf_orchestrator.Roadmap.Models.{is_empty, is_none}
use agf_orchestrator.Risk.Models.{
  RiskLevel, SignalLevel, RollbackDifficulty, RiskSignal, RiskAssessment, max_level, level_number,
  level_is, is_unknown_rollback, is_negative, raise_level, highest_level, validate_signal,
  validate_head, validate,
}
use agf_orchestrator.Risk.Engine.{
  RiskFacts, risk_signals, aggregate_from, aggregate_level, assessed_level, assessment, assess_risk,
}

highest_level_critical :
    (ss : List RiskSignal) (seen : List String) (h : RiskLevel)
    → highest_level ss seen RiskLevel.critical ≡ ok h
    → h ≡ RiskLevel.critical
unfolding highest_level
highest_level_critical [] seen h e = cc
highest_level_critical (s ∷ ss) seen h e =
    let (_, _, rest) = >>=-eq-ok (validate_signal s seen) _ e in
    highest_level_critical ss (s.signal_id ∷ seen) h (rw (stays s.level) at rest)
  where
    stays : (l : SignalLevel) → raise_level RiskLevel.critical l ≡ RiskLevel.critical
    stays SignalLevel.unknown = refl
    stays SignalLevel.low = refl
    stays _ = refl

aggregate_step :
    (s : RiskSignal) (ss : List RiskSignal) (seen : List String) (level h : RiskLevel)
    → ((l : RiskLevel) → highest_level ss seen l ≡ ok h → h ≡ aggregate_from l ss)
    → (l : SignalLevel) → s.level ≡ l
    → highest_level ss seen (raise_level level l) ≡ ok h
    → h ≡ aggregate_from level (s ∷ ss)
unfolding aggregate_from
aggregate_step s ss seen level h rest SignalLevel.unknown e found =
    highest_level_critical ss seen h found ∙ sym (ground arith)
aggregate_step s ss seen level h rest SignalLevel.low e found =
    rw e (rest (max_level level RiskLevel.low) found)
aggregate_step s ss seen level h rest SignalLevel.medium e found =
    rw e (rest (max_level level RiskLevel.medium) found)
aggregate_step s ss seen level h rest SignalLevel.high e found =
    rw e (rest (max_level level RiskLevel.high) found)
aggregate_step s ss seen level h rest SignalLevel.critical e found =
    rw e (rest (max_level level RiskLevel.critical) found)

-- The highest level that the loop of `RiskAssessment.validate` finds is the one that `_aggregate_level`
-- computes.
pub highest_level-aggregate_from :
    (ss : List RiskSignal) (seen : List String) (level h : RiskLevel)
    → highest_level ss seen level ≡ ok h
    → h ≡ aggregate_from level ss
unfolding highest_level aggregate_from
highest_level-aggregate_from [] seen level h e = cc
highest_level-aggregate_from (s ∷ ss) seen level h e =
    let (_, _, rest) = >>=-eq-ok (validate_signal s seen) _ e in
    aggregate_step s ss (s.signal_id ∷ seen) level h
      (λ l. highest_level-aggregate_from ss (s.signal_id ∷ seen) l h) s.level refl rest

-- Facts that make a change CRITICAL: a protected path, or an unknown.
abbrev is_critical : RiskFacts → Bool
is_critical f =
    not (is_empty f.protected_paths)
    || (is_unknown_rollback f.rollback_difficulty || is_none f.incident_count)

abbrev is_nonzero : Option ℤ → Bool
is_nonzero none = false
is_nonzero (some n) = not (eq_ℤ n (pos 0))

abbrev is_hard : RollbackDifficulty → Bool
is_hard RollbackDifficulty.hard = true
is_hard _ = false

abbrev is_moderate : RollbackDifficulty → Bool
is_moderate RollbackDifficulty.moderate = true
is_moderate _ = false

-- Facts that make it HIGH at least.
abbrev is_high : RiskFacts → Bool
is_high f =
    not (leb (length f.changed_paths) 10)
    || (is_hard f.rollback_difficulty
        || (is_nonzero f.incident_count
            || (not (eq_ℤ f.reviewer_blockers (pos 0)) || not f.validation_passed)))

-- Facts that make it MEDIUM at least.
abbrev is_medium : RiskFacts → Bool
is_medium f = not (leb (length f.changed_paths) 3) || is_moderate f.rollback_difficulty

-- The level by description.
abbrev pub required_level : RiskFacts → RiskLevel
required_level f =
    if is_critical f
    then RiskLevel.critical
    else if is_high f
    then RiskLevel.high
    else if is_medium f
    then RiskLevel.medium
    else RiskLevel.low

assessed_level-required_level : (f : RiskFacts) → assessed_level f ≡ required_level f
unfolding assessed_level
assessed_level-required_level f = ground arith

assessment_level : (f : RiskFacts) → (assessment f).level ≡ assessed_level f
unfolding assessment
assessment_level f = refl

-- An assessment that `assess_risk` returns is valid and has the level that the facts require: CRITICAL on
-- a protected path, an unknown rollback or an unknown number of incidents; else HIGH on more than ten
-- paths, a hard rollback, an incident, a reviewer's blocker or a failed validation; else MEDIUM on more
-- than three paths or a moderate rollback; else LOW.
pub assess_risk-level :
    (f : RiskFacts) (a : RiskAssessment)
    → assess_risk f ≡ ok a
    → (validate a ≡ ok tt) × (a.level ≡ required_level f)
unfolding assess_risk
assess_risk-level f a h =
    let (_, _, h₁) =
      >>=-eq-ok
        (raise_if (is_empty f.changed_paths || ltb 200 (length f.changed_paths))
          (risk_engine_error "changed_paths are invalid"))
        _ h in
    let (_, _, h₂) =
      >>=-eq-ok
        (raise_if (not (all has_text f.changed_paths))
          (risk_engine_error "changed_paths are invalid"))
        _ h₁ in
    let (_, _, h₃) =
      >>=-eq-ok
        (raise_if (is_negative f.incident_count) (risk_engine_error "incident_count is invalid")) _
        h₂ in
    let (_, _, h₄) =
      >>=-eq-ok
        (raise_if (ltb_ℤ f.reviewer_blockers (pos 0))
          (risk_engine_error "reviewer_blockers is invalid"))
        _ h₃ in
    let (_, valid, e) = >>=-eq-ok (validate (assessment f)) _ h₄ in
    let same : assessment f ≡ a = ok-injective (assessment f) a e in
    (
      rw (← same) valid,
      sym (ap (λ (w : RiskAssessment). w.level) same)
          ∙ assessment_level f
          ∙ assessed_level-required_level f,
    )

validate_of_level :
    (a : RiskAssessment) (h : RiskLevel)
    → validate_head a ≡ ok tt
    → highest_level a.signals [] RiskLevel.low ≡ ok h
    → ltb (level_number a.level) (level_number h) ≡ false
    → (is_unknown_rollback a.rollback_difficulty && not (level_is a.level RiskLevel.critical))
      ≡ false
    → validate a ≡ ok tt
unfolding validate
validate_of_level a h head loop enough unknown = rw (head, loop, enough, unknown) refl

raised_enough :
    (free : Bool) (l : RiskLevel)
    → ltb (level_number (if not free then RiskLevel.critical else l)) (level_number l) ≡ false
raised_enough free l = ground arith

level_enough :
    (f : RiskFacts) (h : RiskLevel)
    → h ≡ aggregate_level (risk_signals f)
    → ltb (level_number (assessed_level f)) (level_number h) ≡ false
unfolding assessed_level
level_enough f h e =
    subst (λ l. ltb (level_number (assessed_level f)) (level_number l) ≡ false) (sym e)
      (raised_enough (is_empty f.protected_paths) (aggregate_level (risk_signals f)))

level_unknown :
    (f : RiskFacts)
    → (is_unknown_rollback f.rollback_difficulty
        && not (level_is (assessed_level f) RiskLevel.critical))
      ≡ false
level_unknown f =
    let required : (is_unknown_rollback f.rollback_difficulty
          && not (level_is (required_level f) RiskLevel.critical))
        ≡ false =
      ground arith in
    rw (assessed_level-required_level f) required

-- The two level checks of `validate` never refuse what `assess_risk` builds: if the checks before the loop
-- and those of the signals pass, the assessment is valid.
pub assessment-validate :
    (f : RiskFacts) (h : RiskLevel)
    → validate_head (assessment f) ≡ ok tt
    → highest_level (risk_signals f) [] RiskLevel.low ≡ ok h
    → validate (assessment f) ≡ ok tt
unfolding assessment
assessment-validate f h head loop =
    let e = highest_level-aggregate_from (risk_signals f) [] RiskLevel.low h loop in
    validate_of_level (assessment f) h head loop (level_enough f h e) (level_unknown f)
