-- ===== src/Merge/Policy/Authorize.antt =====
-- When the policy engine authorizes a merge.
use agf_orchestrator.Base.{
  ◌≡◌, refl, sym, ◌∙◌, subst, Bool, true, false, not, ◌&&◌, ◌||◌, Option, none, some, List, [], ◌∷◌,
  ◌++◌, String, arith, all, any, if◌then◌else◌,
}
use agf_orchestrator.Base.Raise.{ok, raise_if, >>=-eq-ok, ok-injective, merge_validation_error}
use agf_orchestrator.Base.Sort.{sort_by, any-sort_by}
use agf_orchestrator.Base.Text.{
  str_eq, str_eq_refl, str_mem, str_distinct, is_nonempty, is_revision,
}
use agf_orchestrator.Roadmap.Models.{is_empty}
use agf_orchestrator.Merge.Models.{
  RiskClass, eligible, blocked, authorized, not_authorized, GateEvidence, is_pass, Observed,
  MergeDecision, validate, is_authorized, is_eligible,
}
use agf_orchestrator.Merge.Policy.{
  KillSwitchSnapshot, MergePolicy, Request, integrity, Hash, required_gates, class_mem,
  validate_policy, gate_names, check_gates, gate_lt, normalize_gates, missing_blockers,
  status_blockers, expected_ref, gate_named, stale_signal, stop_blockers, class_blockers,
  human_blockers, blockers, unsealed, with_integrity, verify_integrity, check_assessment, evaluate,
}

-- The evidence of the gate for the emergency stop names the signal that the policy holds.
abbrev is_current : KillSwitchSnapshot → Option GateEvidence → Bool
is_current k none = true
is_current k (some g) = str_mem (expected_ref k) g.evidence_refs

-- What a merge needs: every required gate is there, every gate passes, the emergency stop is not active
-- and, under an active policy, the evidence on it is current, the risk class is allowed and not forbidden,
-- and the policy asks for no human.
abbrev pub is_clear : MergePolicy → RiskClass → List GateEvidence → Bool
is_clear p c gates =
    all (λ name. str_mem name (gate_names gates)) required_gates
    && (all (λ (g : GateEvidence). is_pass g.status) gates
        && (not p.stop_signal.active
            && ((not (is_nonempty p.policy_hash)
                  || is_current p.stop_signal (gate_named "kill_switch" gates))
                && (class_mem c p.allowed_risk_classes
                    && (not (class_mem c p.permanently_forbidden) && not p.require_human_merge)))))

is_empty-append : {A : Type 0} (xs ys : List A) → is_empty (xs ++ ys) ≡ (is_empty xs && is_empty ys)
is_empty-append [] ys = refl
is_empty-append (x ∷ xs) ys = refl

is_empty-missing_blockers :
    (names : List String) (gates : List GateEvidence)
    → is_empty (missing_blockers names gates) ≡ all (λ name. str_mem name (gate_names gates)) names
is_empty-missing_blockers [] gates = refl
is_empty-missing_blockers (name ∷ names) gates =
    ground (arith, is_empty-missing_blockers names gates)

is_empty-status_blockers :
    (gates : List GateEvidence)
    → is_empty (status_blockers gates) ≡ all (λ (g : GateEvidence). is_pass g.status) gates
is_empty-status_blockers [] = refl
is_empty-status_blockers (g ∷ gates) = ground (arith, is_empty-status_blockers gates)

is_empty-stale_signal :
    (k : KillSwitchSnapshot) (o : Option GateEvidence)
    → is_empty (stale_signal k o) ≡ is_current k o
is_empty-stale_signal k none = refl
is_empty-stale_signal k (some g) = ground arith

is_empty-stop_blockers :
    (p : MergePolicy) (gates : List GateEvidence)
    → is_empty (stop_blockers p gates) ≡ (
        not p.stop_signal.active
        && (not (is_nonempty p.policy_hash)
            || is_current p.stop_signal (gate_named "kill_switch" gates)))
is_empty-stop_blockers p gates =
    ground (arith, is_empty-stale_signal p.stop_signal (gate_named "kill_switch" gates))

is_empty-class_blockers :
    (p : MergePolicy) (c : RiskClass)
    → is_empty (class_blockers p c)
      ≡ (class_mem c p.allowed_risk_classes && not (class_mem c p.permanently_forbidden))
is_empty-class_blockers p c = ground arith

is_empty-human_blockers :
    (p : MergePolicy) → is_empty (human_blockers p) ≡ not p.require_human_merge
is_empty-human_blockers p = ground arith

all_empty :
    (ms ss ks cs hs : List String) (m q stopped current allowed forbidden human : Bool)
    → is_empty ms ≡ m
    → is_empty ss ≡ q
    → is_empty ks ≡ (stopped && current)
    → is_empty cs ≡ (allowed && forbidden)
    → is_empty hs ≡ human
    → is_empty (ms ++ (ss ++ (ks ++ (cs ++ hs))))
      ≡ (m && (q && (stopped && (current && (allowed && (forbidden && human))))))
all_empty ms ss ks cs hs m q stopped current allowed forbidden human hm hq hk hc hh = ground (
  arith,
  is_empty-append ms (ss ++ (ks ++ (cs ++ hs))),
  is_empty-append ss (ks ++ (cs ++ hs)),
  is_empty-append ks (cs ++ hs),
  is_empty-append cs hs,
)

-- There are no blockers exactly if the merge is clear.
is_empty-blockers :
    (p : MergePolicy) (c : RiskClass) (gates : List GateEvidence)
    → is_empty (blockers p c gates) ≡ is_clear p c gates
unfolding blockers
is_empty-blockers p c gates =
    all_empty (missing_blockers required_gates gates) (status_blockers gates)
      (stop_blockers p gates) (class_blockers p c) (human_blockers p) _ _ (not p.stop_signal.active)
      (not (is_nonempty p.policy_hash) || is_current p.stop_signal (gate_named "kill_switch" gates))
      (class_mem c p.allowed_risk_classes) (not (class_mem c p.permanently_forbidden)) _
      (is_empty-missing_blockers required_gates gates) (is_empty-status_blockers gates)
      (is_empty-stop_blockers p gates) (is_empty-class_blockers p c) (is_empty-human_blockers p)

normalize_gates-eq-ok :
    (observed : Observed) (gates found : List GateEvidence)
    → normalize_gates observed gates ≡ ok found
    → found ≡ sort_by gate_lt gates
unfolding normalize_gates
normalize_gates-eq-ok observed gates found h =
    let (_, _, h₁) = >>=-eq-ok (check_gates observed gates) _ h in
    let (_, _, h₂) =
      >>=-eq-ok (raise_if (is_empty gates) (merge_validation_error "gates cannot be empty")) _ h₁ in
    let (_, _, h₃) =
      >>=-eq-ok
        (raise_if (not (str_distinct (gate_names gates)))
          (merge_validation_error "gate names must be unique"))
        _ h₂ in
    sym (ok-injective (sort_by gate_lt gates) found h₃)

evaluate-unsealed :
    (hash : Hash) (observed : Observed) (p : MergePolicy) (r : Request) (d : MergeDecision)
    → evaluate hash observed p r ≡ ok d
    → (validate observed d ≡ ok tt)
      × (with_integrity hash (unsealed hash p r (sort_by gate_lt r.gates)) ≡ d)
unfolding evaluate
evaluate-unsealed hash observed p r d h =
    let (_, _, h₁) = >>=-eq-ok (validate_policy p) _ h in
    let (_, _, h₂) = >>=-eq-ok (check_assessment p r r.risk_assessment) _ h₁ in
    let (_, _, h₃) =
      >>=-eq-ok
        (raise_if (not (is_revision r.base_sha) || not (is_revision r.delivery_sha))
          (merge_validation_error "revision identity is invalid"))
        _ h₂ in
    let (gates, normal, h₄) = >>=-eq-ok (normalize_gates observed r.gates) _ h₃ in
    let sealed = with_integrity hash (unsealed hash p r gates) in
    let (_, valid, e) = >>=-eq-ok (validate observed sealed) _ h₄ in
    let same : sealed ≡ d = ok-injective sealed d e in
    let sorted = normalize_gates-eq-ok observed r.gates gates normal in
    (subst (λ w. validate observed w ≡ ok tt) same valid, rw (← sorted) same)

unsealed-statuses :
    (hash : Hash) (p : MergePolicy) (r : Request) (gates : List GateEvidence)
    → (is_authorized (unsealed hash p r gates).authorization_status ≡ is_clear p r.risk_class gates)
      × (is_eligible (unsealed hash p r gates).decision_status ≡ is_clear p r.risk_class gates)
      × ((unsealed hash p r gates).gates ≡ gates)
unfolding unsealed
unsealed-statuses hash p r gates =
    let e = is_empty-blockers p r.risk_class gates in
    (
      authorized_if (is_empty (blockers p r.risk_class gates)) ∙ e,
      eligible_if (is_empty (blockers p r.risk_class gates)) ∙ e,
      refl,
    )
  where
    authorized_if : (b : Bool) → is_authorized (if b then authorized else not_authorized) ≡ b
    authorized_if b = ground arith

    eligible_if : (b : Bool) → is_eligible (if b then eligible else blocked) ≡ b
    eligible_if b = ground arith

verify-with_integrity :
    (hash : Hash) (d : MergeDecision) → verify_integrity hash (with_integrity hash d) ≡ true
unfolding verify_integrity
verify-with_integrity hash d = str_eq_refl (hash (integrity (record d { integrity_hash = "" })))

-- A decision that `evaluate` returns is valid, its hash verifies and its gates are the request's, sorted;
-- it is ELIGIBLE and AUTHORIZED exactly if the merge is clear by the policy, the risk class and the gates.
pub evaluate_lem :
    (hash : Hash) (observed : Observed) (p : MergePolicy) (r : Request) (d : MergeDecision)
    → evaluate hash observed p r ≡ ok d
    → (validate observed d ≡ ok tt)
      × (verify_integrity hash d ≡ true)
      × (d.gates ≡ sort_by gate_lt r.gates)
      × (is_eligible d.decision_status ≡ is_clear p r.risk_class (sort_by gate_lt r.gates))
      × (is_authorized d.authorization_status ≡ is_clear p r.risk_class (sort_by gate_lt r.gates))
evaluate_lem hash observed p r d h =
    let (valid, same) = evaluate-unsealed hash observed p r d h in
    let (a, e, g) = unsealed-statuses hash p r (sort_by gate_lt r.gates) in
    subst
      (λ (w : MergeDecision).
        (validate observed d ≡ ok tt)
        × (verify_integrity hash w ≡ true)
        × (w.gates ≡ sort_by gate_lt r.gates)
        × (is_eligible w.decision_status ≡ is_clear p r.risk_class (sort_by gate_lt r.gates))
        × (is_authorized w.authorization_status
            ≡ is_clear p r.risk_class (sort_by gate_lt r.gates)))
      same
      (valid, verify-with_integrity hash (unsealed hash p r (sort_by gate_lt r.gates)), g, e, a)

-- The gates hold one of a name that passes.
abbrev pub passes : List GateEvidence → String → Bool
passes gates name = any (λ (g : GateEvidence). str_eq name g.name && is_pass g.status) gates

passes-name :
    (gates : List GateEvidence) (name : String)
    → str_mem name (gate_names gates) ≡ true
    → all (λ (g : GateEvidence). is_pass g.status) gates ≡ true
    → passes gates name ≡ true
passes-name [] name m a = cc
passes-name (g ∷ gates) name m a = ground (arith, passes-name gates name)

passes-names :
    (gates : List GateEvidence) (names : List String)
    → all (λ name. str_mem name (gate_names (sort_by gate_lt gates))) names ≡ true
    → all (λ (g : GateEvidence). is_pass g.status) (sort_by gate_lt gates) ≡ true
    → all (passes gates) names ≡ true
passes-names gates [] m a = refl
passes-names gates (name ∷ names) m a =
    let here = passes-name (sort_by gate_lt gates) name (ground arith) a in
    let kept =
      any-sort_by (λ (g : GateEvidence). str_eq name g.name && is_pass g.status) gate_lt gates in
    let rest = passes-names gates names (ground arith) a in rw (sym kept ∙ here) rest

clear_parts :
    (m q active current allowed forbidden human : Bool)
    → (m && (q && (not active && (current && (allowed && (not forbidden && not human)))))) ≡ true
    → (m ≡ true)
      × (q ≡ true)
      × (active ≡ false)
      × (allowed ≡ true)
      × (forbidden ≡ false)
      × (human ≡ false)
clear_parts m q active current allowed forbidden human h =
    (ground arith, ground arith, ground arith, ground arith, ground arith, ground arith)

-- A decision of `evaluate` that authorizes a merge has every required gate with status PASS among the
-- gates of the request; the emergency stop is not active, the risk class is allowed and not forbidden, and
-- the policy asks for no human.
pub evaluate_authorized :
    (hash : Hash) (observed : Observed) (p : MergePolicy) (r : Request) (d : MergeDecision)
    → evaluate hash observed p r ≡ ok d
    → is_authorized d.authorization_status ≡ true
    → (all (passes r.gates) required_gates ≡ true)
      × (p.stop_signal.active ≡ false)
      × (class_mem r.risk_class p.allowed_risk_classes ≡ true)
      × (class_mem r.risk_class p.permanently_forbidden ≡ false)
      × (p.require_human_merge ≡ false)
evaluate_authorized hash observed p r d h yes_to =
    let (_, _, _, _, a) = evaluate_lem hash observed p r d h in
    let (present, passing, calm, allowed, permitted, no_human) =
      clear_parts _ _ p.stop_signal.active
        (not (is_nonempty p.policy_hash)
          || is_current p.stop_signal (gate_named "kill_switch" (sort_by gate_lt r.gates)))
        (class_mem r.risk_class p.allowed_risk_classes)
        (class_mem r.risk_class p.permanently_forbidden) p.require_human_merge (sym a ∙ yes_to) in
    (passes-names r.gates required_gates present passing, calm, allowed, permitted, no_human)
