-- ===== src/Finding/Models.antt =====
-- The data of a causal finding (src/agf_orchestrator/causal_findings.py). `J` is the type of proposals, which are
-- JSON objects.
use Prim.Native.String.{◌++◌}
use agf_orchestrator.Base.{
  ℕ, Bool, true, false, not, ◌&&◌, Option, none, some, List, [], ◌∷◌, String, if◌then◌else◌, length,
  ◌==◌,
}
use agf_orchestrator.Base.Raise.{
  Error, Result, ok, causal_finding_error, require_all, raise_if, ◌>>◌,
}
use agf_orchestrator.Base.Strip.{strip}
use agf_orchestrator.Base.Text.{str_eq, str_mem, starts_with, has_text, codes}

-- `hashlib.sha256(value.encode()).hexdigest()[:24]`
abbrev pub Digest : Type 0
Digest = String → String

-- `finding_identity`
unfoldable pub finding_identity : Digest → String → String → String → String → String
finding_identity digest project_id baseline_sha symptom reproduction =
    "finding-"
    ++ digest (
        project_id
        ++ ("\n" ++ (baseline_sha ++ ("\n" ++ (strip symptom ++ ("\n" ++ strip reproduction))))))

pub record CausalFinding (J : Type 0) : Type 0 where
  pub schema_version : String
  pub finding_id : String
  pub project_id : String
  pub baseline_sha : String
  pub target_identity : String
  pub severity : String
  pub symptom : String
  pub reproduction : String
  pub observed_error : String
  pub evidence_refs : List String
  pub proposal : J
  pub reproduced_sha : String
  pub status : String
  pub created_at : String
  pub updated_at : String
  pub closure_reason : Option String
  pub closure_evidence : List String

abbrev pub has_length : ℕ → String → Bool
has_length n s = length (codes s) == n

abbrev pub is_empty : List String → Bool
is_empty [] = true
is_empty (x ∷ xs) = false

-- `reason in {"DELIVERED", "NO_LONGER_REPRODUCIBLE"}`
abbrev pub is_reason : String → Bool
is_reason reason = str_mem reason ("DELIVERED" ∷ "NO_LONGER_REPRODUCIBLE" ∷ [])

abbrev pub given_reason : Option String → Bool
given_reason none = false
given_reason (some reason) = is_reason reason

abbrev pub is_closed : {J : Type 0} → CausalFinding J → Bool
is_closed f = str_eq f.status "CLOSED"

abbrev pub closure_checks : {J : Type 0} → CausalFinding J → List (Bool × Error)
closure_checks f =
    if is_closed f
    then (
      given_reason f.closure_reason,
      causal_finding_error "causal finding closure reason is invalid",
    )
      ∷ (
        not (is_empty f.closure_evidence),
        causal_finding_error "causal finding closure evidence is required",
      )
      ∷ []
    else []

abbrev pub base_checks : {J : Type 0} → CausalFinding J → List (Bool × Error)
base_checks f =
    (str_eq f.schema_version "1.0", causal_finding_error "causal finding schema is invalid")
    ∷ (
      starts_with f.finding_id "finding-",
      causal_finding_error "causal finding identity is invalid",
    )
    ∷ (
      starts_with f.project_id "project-",
      causal_finding_error "causal finding project binding is invalid",
    )
    ∷ (
      has_length 40 f.baseline_sha && has_length 40 f.reproduced_sha,
      causal_finding_error "causal finding SHA binding is invalid",
    )
    ∷ (
      str_mem f.severity ("REQUIRED" ∷ "OPTIONAL" ∷ []),
      causal_finding_error "causal finding severity is invalid",
    )
    ∷ (
      str_mem f.status ("ACTIVE" ∷ "CLOSED" ∷ []),
      causal_finding_error "causal finding status is invalid",
    )
    ∷ (
      has_text f.symptom && has_text f.reproduction,
      causal_finding_error "causal finding reproduction evidence is incomplete",
    )
    ∷ (
      not (is_empty f.evidence_refs),
      causal_finding_error "causal finding evidence references are required",
    )
    ∷ []

-- `CausalFinding.validate`
unfoldable pub validate : {J : Type 0} → CausalFinding J → Result (Unit {0})
validate f = do require_all (base_checks f); require_all (closure_checks f)

abbrev pub identity_of : {J : Type 0} → Digest → CausalFinding J → String
identity_of digest f = finding_identity digest f.project_id f.baseline_sha f.symptom f.reproduction

-- `finding_from_dict` of a payload with the fields of a finding
unfoldable pub finding_from_dict :
    {J : Type 0} → Digest → CausalFinding J → Result (CausalFinding J)
finding_from_dict digest f = do
  validate f
  raise_if (not (str_eq f.finding_id (identity_of digest f)))
      (causal_finding_error "causal finding identity does not match its evidence")
  ok f
