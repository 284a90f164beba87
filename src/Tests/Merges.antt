-- ===== src/Tests/Merges.antt =====
-- The merge policy engine (src/agf_orchestrator/merge_policy.py) on concrete inputs.
use agf_orchestrator.Base.{◌≡◌, refl, Bool, true, false, none, List, [], ◌∷◌, String, all, map}
use agf_orchestrator.Base.Int.{pos}
use agf_orchestrator.Base.Raise.{ok, raise, merge_validation_error}
use agf_orchestrator.Base.Sort.{sort_by}
use agf_orchestrator.Base.Text.{
  is_nonempty, has_text, len_le, is_space, has_secret, is_revision, is_hex_text, is_gate_name,
  is_decision_id, str_lt,
}
use agf_orchestrator.Merge.Models.{
  RiskClass, GateStatus, pass, fail, GateEvidence, Observed, MergeDecision, is_authorized,
  is_eligible, validate_gate, validate,
}
use agf_orchestrator.Merge.Policy.{
  MergePolicy, Request, Hash, required_gates, class_mem, check_gates, gate_lt, unsealed,
  with_integrity, verify_integrity, evaluate,
}
use agf_orchestrator.Merge.Policy.Authorize.{is_clear, passes, evaluate_lem, evaluate_authorized}

abbrev gate : String → GateStatus → GateEvidence
gate name status = record {
  name = name;
  status = status;
  evidence_refs = "report.json" ∷ [];
  observed_at = "";
  freshness = "";
  detail = "";
}

abbrev policy : MergePolicy
policy = record {
  policy_id = "policy-1";
  version = "1";
  allowed_risk_classes = RiskClass.low ∷ RiskClass.medium ∷ [];
  require_human_merge = false;
  permanently_forbidden = RiskClass.critical ∷ RiskClass.unknown ∷ [];
  policy_hash = "";
  stop_signal = record {
    active = false;
    generation = pos 0;
    event_id = "stop-0";
    changed_at = "";
    reason = "";
  };
  authority_generation = pos 0;
}

abbrev request : List GateEvidence → Request
request gates = record {
  project_id = "project-1";
  task_id = "task-1";
  base_sha = "0123456789012345678901234567890123456789";
  delivery_sha = "abcdef6789012345678901234567890123456789";
  constitution_id = "constitution-1";
  risk_class = RiskClass.low;
  risk_assessment = none;
  gates = gates;
  expiry = "";
}

abbrev all_pass : Request
all_pass = request (map (λ name. gate name pass) required_gates)

abbrev one_fails : Request
one_fails = request (gate "deploy-token" fail ∷ map (λ name. gate name pass) required_gates)

-- A hash of the right length, for every payload.
abbrev hash : Hash
hash payload = "0123456789abcdef0123456789abcdef0123456789abcdef0123456789abcdef"

abbrev observed : Observed
observed time = true

abbrev decided : MergeDecision
decided = with_integrity hash (unsealed hash policy all_pass (sort_by gate_lt all_pass.gates))

evaluates : evaluate hash observed policy all_pass ≡ ok decided
unfolding evaluate check_gates validate_gate validate unsealed is_nonempty has_text len_le is_space
    has_secret is_revision is_hex_text is_gate_name is_decision_id str_lt
evaluates = refl

authorizes : is_authorized decided.authorization_status ≡ true
unfolding unsealed str_lt is_nonempty
authorizes = refl

evaluate_lem_example :
    (validate observed decided ≡ ok tt)
    × (verify_integrity hash decided ≡ true)
    × (decided.gates ≡ sort_by gate_lt all_pass.gates)
    × (is_eligible decided.decision_status
        ≡ is_clear policy RiskClass.low (sort_by gate_lt all_pass.gates))
    × (is_authorized decided.authorization_status
        ≡ is_clear policy RiskClass.low (sort_by gate_lt all_pass.gates))
evaluate_lem_example = evaluate_lem hash observed policy all_pass decided evaluates

evaluate_authorized_example :
    (all (passes all_pass.gates) required_gates ≡ true)
    × (◌≡◌ {A = Bool} false false)
    × (class_mem RiskClass.low policy.allowed_risk_classes ≡ true)
    × (class_mem RiskClass.low policy.permanently_forbidden ≡ false)
    × (◌≡◌ {A = Bool} false false)
evaluate_authorized_example =
    evaluate_authorized hash observed policy all_pass decided evaluates authorizes

-- The reason for a failed gate whose name ends in a word of `_SECRET` reads as a secret: no decision.
undecided :
    evaluate hash observed policy one_fails
    ≡ raise (merge_validation_error "blocking_reasons is invalid")
unfolding evaluate check_gates validate_gate validate unsealed is_nonempty has_text len_le is_space
    has_secret is_revision is_hex_text is_gate_name is_decision_id str_lt
undecided = refl
