-- ===== src/Capability/Selection.antt =====
-- `CapabilitySelector` (src/agf_orchestrator/capability_selection.py): the first candidate that is eligible under
-- the gates.
pub mod First
pub mod Eligible
pub mod Passed
use Prim.Native.String.{◌++◌ as join}
use agf_orchestrator.Base.{
  ℕ, zero, suc, Bool, true, false, not, ◌&&◌, ◌||◌, Option, none, some, List, [], ◌∷◌, ◌++◌, String,
  if◌then◌else◌, length, ltb, ◌==◌,
}
use agf_orchestrator.Base.Int.{ℤ, pos, ltb_ℤ, eq_ℤ}
use agf_orchestrator.Base.Order.{sorted_set}
use agf_orchestrator.Base.Raise.{
  Error, message, Result, ok, raise, capability_selection_error, raise_if, ◌>>=◌, ◌>>◌,
}
use agf_orchestrator.Base.Sort.{sort_by}
use agf_orchestrator.Base.Text.{str_eq, str_mem, str_lt}
use agf_orchestrator.Capability.Profiles.{
  Platform, CapabilityProfile, validate, validate_at, validate_binding, require_supported,
}

pub record SelectionGates : Type 0 where
  pub policy_eligible : Option Bool
  pub privacy_eligible : Option Bool
  pub independence_eligible : Option Bool
  pub budget_eligible : Option Bool
  pub health_eligible : Option Bool
  pub empirical_evidence_eligible : Option Bool
  pub allow_fallback : Bool

-- `SelectionGates()`
abbrev pub default_gates : SelectionGates
default_gates = record {
  policy_eligible = none;
  privacy_eligible = none;
  independence_eligible = none;
  budget_eligible = none;
  health_eligible = none;
  empirical_evidence_eligible = none;
  allow_fallback = true;
}

abbrev pub gate_list : SelectionGates → List (String × Option Bool)
gate_list g =
    ("policy", g.policy_eligible)
    ∷ ("privacy", g.privacy_eligible)
    ∷ ("independence", g.independence_eligible)
    ∷ ("budget", g.budget_eligible)
    ∷ ("health", g.health_eligible)
    ∷ ("empirical_evidence", g.empirical_evidence_eligible)
    ∷ []

abbrev pub failed_gate : String → Option Bool → List String
failed_gate name none = join "missing:" name ∷ []
failed_gate name (some true) = []
failed_gate name (some false) = name ∷ []

abbrev pub failed_from : List (String × Option Bool) → List String
failed_from [] = []
failed_from ((name, passed) ∷ gates) = failed_gate name passed ++ failed_from gates

-- `SelectionGates.failed`
abbrev pub failed : SelectionGates → List String
failed g = failed_from (gate_list g)

pub record CapabilityCandidate : Type 0 where
  pub profile : CapabilityProfile
  pub priority : ℤ
  pub diagnostic_only : Bool

-- `CapabilityCandidate.validate`
abbrev pub validate_candidate : Platform → CapabilityCandidate → Result (Unit {0})
validate_candidate platform c = do
  validate platform c.profile
  raise_if (ltb_ℤ c.priority (pos 0))
      (capability_selection_error "candidate priority must not be negative")

pub record SelectionResult : Type 0 where
  pub provider_id : String
  pub profile_id : String
  pub fallback_used : Bool
  pub considered_candidates : List String
  pub rejected_reasons : List String

-- The order of two texts by their code points, and then by what follows.
abbrev pub text_then : String → String → Bool → Bool
text_then a b rest = str_lt a b || (str_eq a b && rest)

-- The order of the keys of `order_candidates`.
abbrev pub key_lt : CapabilityCandidate → CapabilityCandidate → Bool
key_lt a b =
    ltb_ℤ a.priority b.priority
    || (eq_ℤ a.priority b.priority
        && text_then a.profile.provider_id b.profile.provider_id
            (text_then a.profile.profile_id b.profile.profile_id false))

-- `order_candidates`
abbrev pub order_candidates : List CapabilityCandidate → List CapabilityCandidate
order_candidates cs = sort_by key_lt cs

-- `sep.join(xs)`
abbrev pub joined : String → List String → String
joined sep [] = ""
joined sep (x ∷ []) = x
joined sep (x ∷ y ∷ xs) = join x (join sep (joined sep (y ∷ xs)))

-- `diagnostic_only_provider_ids`
abbrev pub is_diagnostic : CapabilityCandidate → Bool
is_diagnostic c =
    c.diagnostic_only || str_mem c.profile.provider_id ("provider-qwen" ∷ "qwen3.5:9b-q4_K_M" ∷ [])

-- `try: candidate.profile.require_supported(capability)`
abbrev pub unless_supported : Result String → String → Option String → Option String
unless_supported (ok v) name rest = rest
unless_supported (raise e) name rest = some (join "required capability is not supported: " name)

-- The loop over the required capabilities.
abbrev pub unsupported_reason : Platform → CapabilityProfile → List String → Option String
unsupported_reason platform p [] = none
unsupported_reason platform p (name ∷ names) =
    let rest = unsupported_reason platform p names in
    unless_supported (require_supported platform p name) name rest

-- What a call of `select` is given beside the candidates.
pub record Request : Type 0 where
  pub project_id : String
  pub required_capabilities : List String
  pub now : String
  pub gates : Option SelectionGates
  pub precomputed_rejections : String → Option String

abbrev pub active_gates : Request → SelectionGates
active_gates r = elim r.gates [ none ↦ default_gates | some g ↦ g ]

abbrev pub required : Request → List String
required r = sorted_set r.required_capabilities

abbrev pub checks : Platform → Request → CapabilityCandidate → Result (Unit {0})
checks platform r c = do
  validate_candidate platform c
  validate_binding r.project_id c.profile.provider_id c.profile
  validate_at platform c.profile r.now

abbrev pub gate_reason : Platform → Request → CapabilityCandidate → Option String
gate_reason platform r c =
    if is_diagnostic c
    then some "diagnostic-only candidate"
    else if not (length (failed (active_gates r)) == 0)
    then some (join "failed gates: " (joined "," (failed (active_gates r))))
    else unsupported_reason platform c.profile (required r)

-- `except CapabilityProfileError as exc: return str(exc)`
abbrev pub reason_after : Result (Unit {0}) → Option String → Option String
reason_after (raise e) rest = some (message e)
reason_after (ok _) rest = rest

-- `_rejection_reason`
unfoldable pub rejection_reason : Platform → Request → CapabilityCandidate → Option String
rejection_reason platform r c = reason_after (checks platform r c) (gate_reason platform r c)

-- `if reason is None: reason = rest`
abbrev pub or_reason : Option String → Option String → Option String
or_reason none rest = rest
or_reason (some reason) rest = some reason

-- The reason that the loop of `select` finds.
unfoldable pub reason_of : Platform → Request → CapabilityCandidate → Option String
unfolding rejection_reason
reason_of platform r c =
    or_reason (r.precomputed_rejections c.profile.provider_id) (rejection_reason platform r c)

-- The variables of the loop.
pub record Progress : Type 0 where
  pub considered : List String
  pub rejected : List String
  pub selected : Option (String × String × Bool)

abbrev pub reject : CapabilityCandidate → String → Progress → Progress
reject c reason p = record p {
  rejected = p.rejected ++ join c.profile.provider_id (join ": " reason) ∷ [];
}

-- `if selected is None: selected = b`
abbrev pub first_of : {A : Type 0} → Option A → Option A → Option A
first_of none b = b
first_of (some a) b = some a

abbrev pub choose : CapabilityCandidate → Bool → Progress → Progress
choose c fallback p = record p {
  selected = first_of p.selected (some (c.profile.provider_id, c.profile.profile_id, fallback));
}

-- The end of a round, on the reason, and on whether a fallback is one and may not be.
abbrev pub judged : Option String → Bool → Bool → CapabilityCandidate → Progress → Progress
judged (some reason) forbidden fallback c p = reject c reason p
judged none forbidden fallback c p =
    if forbidden then reject c "fallback is not permitted" p else choose c fallback p

-- One round of the loop, at an index.
unfoldable pub round : Platform → Request → ℕ → CapabilityCandidate → Progress → Progress
unfolding reason_of
round platform r index c p =
    judged (reason_of platform r c) (ltb 0 index && not (active_gates r).allow_fallback)
      (ltb 0 index) c (record p { considered = p.considered ++ c.profile.provider_id ∷ [] })

unfoldable pub loop : Platform → Request → ℕ → List CapabilityCandidate → Progress → Progress
unfolding round
loop platform r index [] p = p
loop platform r index (c ∷ cs) p = loop platform r (suc index) cs (round platform r index c p)

-- The end of `select`.
abbrev pub answered : Option (String × String × Bool) → Progress → Result SelectionResult
answered none p = raise (
    capability_selection_error (join "no eligible capability candidate: " (joined "; " p.rejected)))
answered (some (provider_id, profile_id, fallback)) p = ok (record {
  provider_id = provider_id;
  profile_id = profile_id;
  fallback_used = fallback;
  considered_candidates = p.considered;
  rejected_reasons = p.rejected;
})

abbrev pub answer : Progress → Result SelectionResult
answer p = answered p.selected p

-- `select`
unfoldable pub select : Platform → Request → List CapabilityCandidate → Result SelectionResult
unfolding loop
select platform r candidates = do
  raise_if (length (required r) == 0)
      (capability_selection_error "required_capabilities must not be empty")
  answer (
      loop platform r 0 (order_candidates candidates)
        (record { considered = []; rejected = []; selected = none }))
