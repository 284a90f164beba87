-- ===== src/Merge/Policy.antt =====
-- The policy engine that aggregates the merge gates (src/agf_orchestrator/merge_policy.py).
pub mod Authorize
use Prim.Native.String.{◌++◌, slice}
use agf_orchestrator.Base.{
  ℕ, Bool, true, false, not, ◌&&◌, ◌||◌, Option, none, some, List, [], ◌∷◌, ◌++◌ as append, String,
  leb, ltb, length, any, all, map, find_first, ◌==◌, if◌then◌else◌,
}
use agf_orchestrator.Base.Int.{ℤ, pos, ltb_ℤ}
use agf_orchestrator.Base.Raise.{
  Error, Result, ok, raise, merge_validation_error, raise_if, ◌>>=◌, ◌>>◌,
}
use agf_orchestrator.Base.Show.{show_ℤ}
use agf_orchestrator.Base.Sort.{sort_by}
use agf_orchestrator.Base.Text.{
  codes, str_eq, str_lt, str_mem, str_distinct, is_nonempty, has_text, is_revision,
}
use agf_orchestrator.Merge.Models.{
  RiskClass, class_value, class_is, class_of_level, DecisionStatus, eligible, blocked,
  AuthorizationStatus, authorized, not_authorized, GateEvidence, gate_value, is_pass, Observed,
  validate_gate, MergeDecision, validate,
}
use agf_orchestrator.Risk.Models as Risks
use agf_orchestrator.Risk.Models.{RiskAssessment}
use agf_orchestrator.Roadmap.Models.{is_empty}

-- `policy_state_store.KillSwitchSnapshot`
pub record KillSwitchSnapshot : Type 0 where
  pub active : Bool
  pub generation : ℤ
  pub event_id : String
  pub changed_at : String
  pub reason : String

pub record MergePolicy : Type 0 where
  pub policy_id : String
  pub version : String
  pub allowed_risk_classes : List RiskClass
  pub require_human_merge : Bool
  pub permanently_forbidden : List RiskClass
  pub policy_hash : String
  pub stop_signal : KillSwitchSnapshot
  pub authority_generation : ℤ

-- The arguments of `evaluate`.
pub record Request : Type 0 where
  pub project_id : String
  pub task_id : String
  pub base_sha : String
  pub delivery_sha : String
  pub constitution_id : String
  pub risk_class : RiskClass
  pub risk_assessment : Option RiskAssessment
  pub gates : List GateEvidence
  pub expiry : String

-- The objects that `canonical_hash` is called on.
pub data Payload : Type 0 where
  evidence : List GateEvidence → Payload
  identity : Request → List GateEvidence → MergePolicy → Payload
  integrity : MergeDecision → Payload

-- `canonical_hash`: SHA-256, in hexadecimal, of an object's canonical JSON.
abbrev pub Hash : Type 0
Hash = Payload → String

-- `REQUIRED_GATES`
abbrev pub required_gates : List String
required_gates =
    "constitution" ∷ "policy" ∷ "plan" ∷ "implementation" ∷ "review" ∷ "compliance" ∷ "validation"
    ∷ "risk" ∷ "caller_clean" ∷ "base_sha" ∷ "authorized_paths" ∷ "remote_state" ∷ "delivery_branch"
    ∷ "kill_switch" ∷ []

-- `risk_class in classes`
abbrev pub class_mem : RiskClass → List RiskClass → Bool
class_mem c = any (class_is c)

abbrev classes_distinct : List RiskClass → Bool
classes_distinct [] = true
classes_distinct (c ∷ cs) = not (class_mem c cs) && classes_distinct cs

-- `MergePolicy.validate`
unfoldable pub validate_policy : MergePolicy → Result (Unit {0})
validate_policy p = do
  raise_if (not (has_text p.policy_id) || not (has_text p.version))
      (merge_validation_error "merge policy identity is required")
  raise_if (is_empty p.allowed_risk_classes)
      (merge_validation_error "allowed_risk_classes cannot be empty")
  raise_if (not (classes_distinct p.allowed_risk_classes))
      (merge_validation_error "allowed_risk_classes must be unique")
  raise_if (any (λ c. class_mem c p.permanently_forbidden) p.allowed_risk_classes)
      (merge_validation_error "forbidden risk classes cannot be allowed")
  raise_if (is_nonempty p.policy_hash && not (length (codes p.policy_hash) == 64))
      (merge_validation_error "policy hash is invalid")
  raise_if (ltb_ℤ p.authority_generation (pos 0))
      (merge_validation_error "authority generation is invalid")

abbrev pub gate_names : List GateEvidence → List String
gate_names [] = []
gate_names (g ∷ gs) = g.name ∷ gate_names gs

-- The loop of `_normalize_gates`: every item is validated.
unfoldable pub check_gates : Observed → List GateEvidence → Result (Unit {0})
check_gates observed [] = ok tt
check_gates observed (g ∷ gs) = validate_gate observed g >> check_gates observed gs

abbrev pub gate_lt : GateEvidence → GateEvidence → Bool
gate_lt a b = str_lt a.name b.name

-- `_normalize_gates`, on items that are all `GateEvidence`.
unfoldable pub normalize_gates : Observed → List GateEvidence → Result (List GateEvidence)
unfolding check_gates
normalize_gates observed gates = do
  check_gates observed gates
  raise_if (is_empty gates) (merge_validation_error "gates cannot be empty")
  raise_if (not (str_distinct (gate_names gates)))
      (merge_validation_error "gate names must be unique")
  ok (sort_by gate_lt gates)

-- The blockers for required gates that are missing.
abbrev pub missing_blockers : List String → List GateEvidence → List String
missing_blockers [] gates = []
missing_blockers (name ∷ names) gates =
    let rest = missing_blockers names gates in
    if str_mem name (gate_names gates) then rest else ("missing gate: " ++ name) ∷ rest

-- The blockers for gates that did not pass.
abbrev pub status_blockers : List GateEvidence → List String
status_blockers [] = []
status_blockers (g ∷ gs) =
    let rest = status_blockers gs in
    if is_pass g.status then rest else ("gate " ++ g.name ++ ": " ++ gate_value g.status) ∷ rest

-- `kill-switch:{event_id}:{generation}`
abbrev pub expected_ref : KillSwitchSnapshot → String
expected_ref k = "kill-switch:" ++ k.event_id ++ ":" ++ show_ℤ k.generation

abbrev pub gate_named : String → List GateEvidence → Option GateEvidence
gate_named name = find_first (λ (g : GateEvidence). str_eq g.name name)

abbrev stale_signal : KillSwitchSnapshot → Option GateEvidence → List String
stale_signal k none = []
stale_signal k (some g) =
    if str_mem (expected_ref k) g.evidence_refs
    then []
    else "kill-switch evidence is not current" ∷ []

-- The blockers for the emergency stop.
abbrev pub stop_blockers : MergePolicy → List GateEvidence → List String
stop_blockers p gates =
    if p.stop_signal.active
    then ("emergency stop is active: "
        ++ p.stop_signal.event_id
        ++ " generation "
        ++ show_ℤ p.stop_signal.generation)
      ∷ []
    else if is_nonempty p.policy_hash
    then stale_signal p.stop_signal (gate_named "kill_switch" gates)
    else []

-- The blockers for the risk class.
abbrev pub class_blockers : MergePolicy → RiskClass → List String
class_blockers p c =
    if class_mem c p.permanently_forbidden
    then ("risk class " ++ class_value c ++ " is forbidden") ∷ []
    else if not (class_mem c p.allowed_risk_classes)
    then ("risk class " ++ class_value c ++ " is not permitted by policy") ∷ []
    else []

abbrev pub human_blockers : MergePolicy → List String
human_blockers p =
    if p.require_human_merge then "human merge approval is required by policy" ∷ [] else []

-- `blockers`
unfoldable pub blockers : MergePolicy → RiskClass → List GateEvidence → List String
blockers p c gates = append (missing_blockers required_gates gates) (
    append (status_blockers gates)
      (append (stop_blockers p gates) (append (class_blockers p c) (human_blockers p))))

-- `tuple(sorted(set(blockers)))`
abbrev distinct_texts : List String → List String
distinct_texts [] = []
distinct_texts (x ∷ xs) = let rest = distinct_texts xs in if str_mem x xs then rest else x ∷ rest

abbrev sorted_set : List String → List String
sorted_set xs = sort_by str_lt (distinct_texts xs)

-- The decision of `evaluate` before its integrity hash.
unfoldable pub unsealed : Hash → MergePolicy → Request → List GateEvidence → MergeDecision
unfolding blockers
unsealed hash p r gates =
    let found = blockers p r.risk_class gates in
    record {
      schema_version = "1.0";
      decision_id = "decision-" ++ slice (hash (identity r gates p)) 0 32;
      project_id = r.project_id;
      task_id = r.task_id;
      base_sha = r.base_sha;
      delivery_sha = r.delivery_sha;
      risk_class = r.risk_class;
      gates = gates;
      policy_id = p.policy_id;
      policy_version = p.version;
      constitution_id = r.constitution_id;
      decision_status = if is_empty found then eligible else blocked;
      authorization_status = if is_empty found then authorized else not_authorized;
      blocking_reasons = sorted_set found;
      evidence_hash = hash (evidence gates);
      integrity_hash = "";
      expiry = r.expiry;
      policy_hash = p.policy_hash;
      risk_assessment = r.risk_assessment;
      authority_generation = p.authority_generation;
      kill_switch_active = p.stop_signal.active;
    }

-- `_with_integrity`: the hash covers every field but itself.
abbrev pub with_integrity : Hash → MergeDecision → MergeDecision
with_integrity hash d = record d {
  integrity_hash = hash (integrity (record d { integrity_hash = "" }));
}

-- `MergeDecision.verify_integrity`
unfoldable pub verify_integrity : Hash → MergeDecision → Bool
verify_integrity hash d =
    str_eq (hash (integrity (record d { integrity_hash = "" }))) d.integrity_hash

-- The checks of `evaluate` on the risk assessment.
unfoldable pub check_assessment : MergePolicy → Request → Option RiskAssessment → Result (Unit {0})
check_assessment p r none =
    raise_if (is_nonempty p.policy_hash)
      (merge_validation_error "active policy decisions require Risk Engine assessment")
check_assessment p r (some a) = do
  Risks.validate a
  raise_if (not (str_eq a.project_id r.project_id) || not (str_eq a.task_id r.task_id))
      (merge_validation_error "Risk Engine assessment identity does not match decision")
  raise_if (not (class_is (class_of_level a.level) r.risk_class))
      (merge_validation_error "risk class does not match Risk Engine assessment")

-- `MergePolicyEngine(policy).evaluate`
unfoldable pub evaluate : Hash → Observed → MergePolicy → Request → Result MergeDecision
unfolding validate_policy check_assessment normalize_gates unsealed
evaluate hash observed p r = do
  validate_policy p
  check_assessment p r r.risk_assessment
  raise_if (not (is_revision r.base_sha) || not (is_revision r.delivery_sha))
      (merge_validation_error "revision identity is invalid")
  gates ← normalize_gates observed r.gates
  let decision = with_integrity hash (unsealed hash p r gates)
  validate observed decision
  ok decision
