-- ===== src/Finding/Store.antt =====
-- `CausalFindingStore` (src/agf_orchestrator/causal_findings.py): a file for each finding of each
-- project. The store takes no lock: `record` and `close` read a file and then write it.
pub mod Files
pub mod Again
pub mod Closed
pub mod Active
pub mod Race
use Prim.Native.String.{◌++◌}
use agf_orchestrator.Base.{
  ℕ, Bool, true, false, not, ◌&&◌, ◌||◌, Option, none, some, List, [], ◌∷◌, String, if◌then◌else◌,
  keep,
}
use agf_orchestrator.Base.Raise.{
  Error, Result, ok, raise, causal_finding_error, os_error, raise_if, ◌>>=◌, ◌>>◌,
}
use agf_orchestrator.Base.Sort.{sort_by}
use agf_orchestrator.Base.Text.{str_eq, str_lt, starts_with, is_nonempty}
use agf_orchestrator.Scheduler.Store.{texts_eq}
use agf_orchestrator.Base.Order.{sorted_set}
use agf_orchestrator.Finding.Models.{
  Digest, finding_identity, CausalFinding, validate, finding_from_dict, is_closed, is_reason,
  is_empty,
}

-- A file: no object with the fields of a finding, with the exception that reading it raises, or such an object.
pub data Contents (J : Type 0) : Type 0 where
  malformed : Error → Contents J
  document : CausalFinding J → Contents J

-- A file with the names of its directory and of the finding.
pub record Entry (J : Type 0) : Type 0 where
  pub project_id : String
  pub finding_id : String
  pub contents : Contents J

abbrev pub Files : Type 0 → Type 0
Files J = List (Entry J)

abbrev pub is_at : {J : Type 0} → String → String → Entry J → Bool
is_at p i e = str_eq e.project_id p && str_eq e.finding_id i

abbrev pub lookup : {J : Type 0} → String → String → Files J → Option (Contents J)
lookup p i [] = none
lookup p i (e ∷ es) = let rest = lookup p i es in if is_at p i e then some e.contents else rest

abbrev pub put : {J : Type 0} → String → String → CausalFinding J → Files J → Files J
put p i f [] = record { project_id = p; finding_id = i; contents = document f } ∷ []
put p i f (e ∷ es) =
    let rest = put p i f es in
    if is_at p i e then record e { contents = document f } ∷ es else e ∷ rest

-- `_write`: the file is replaced whole, or the `OSError` of this message is raised.
abbrev pub write :
    {J : Type 0}
    → Option String
    → String
    → String
    → CausalFinding J
    → Files J
    → Result (CausalFinding J) × Files J
write none p i f files = (ok f, put p i f files)
write (some m) p i f files = (raise (os_error m), files)

-- `_path`
abbrev pub check_path : String → String → Result (Unit {0})
check_path p i =
    raise_if (not (starts_with p "project-") || not (starts_with i "finding-"))
      (causal_finding_error "causal finding path identity is invalid")

abbrev pub read : {J : Type 0} → Digest → Contents J → Result (CausalFinding J)
read digest (malformed e) = raise e
read digest (document f) = finding_from_dict digest f

abbrev pub read_found :
    {J : Type 0} → Digest → Option (Contents J) → Result (Option (CausalFinding J))
read_found digest none = ok none
read_found digest (some c) = read digest c >>= λ f. ok (some f)

-- `get`
unfoldable pub get :
    {J : Type 0} → Digest → String → String → Files J → Result (Option (CausalFinding J))
get digest p i files = do check_path p i; read_found digest (lookup p i files)

abbrev pub is_wanted : {J : Type 0} → Option String → CausalFinding J → Bool
is_wanted none f = str_eq f.status "ACTIVE"
is_wanted (some sha) f = str_eq f.status "ACTIVE" && str_eq f.reproduced_sha sha

abbrev pub read_all :
    {J : Type 0} → Digest → Option String → Files J → Result (List (CausalFinding J))
read_all digest baseline [] = ok []
read_all digest baseline (e ∷ es) =
    let rest = read_all digest baseline es in
    do f ← read digest e.contents; fs ← rest; ok (if is_wanted baseline f then f ∷ fs else fs)

-- `sorted(directory.glob("finding-*.json"))`
abbrev pub directory : {J : Type 0} → String → Files J → Files J
directory p files =
    sort_by (λ a b. str_lt (a.finding_id ++ ".json") (b.finding_id ++ ".json"))
      (keep (λ e. str_eq e.project_id p && starts_with e.finding_id "finding-") files)

-- `active`
unfoldable pub active :
    {J : Type 0} → Digest → String → Option String → Files J → Result (List (CausalFinding J))
active digest p baseline files = read_all digest baseline (directory p files)

-- The arguments of `record`.
pub record Report (J : Type 0) : Type 0 where
  pub project_id : String
  pub baseline_sha : String
  pub target_identity : String
  pub symptom : String
  pub reproduction : String
  pub observed_error : String
  pub evidence_refs : List String
  pub proposal : J
  pub severity : String
  pub reproduced_sha : Option String

-- What one call meets: the times that it reads, and whether its write goes through.
pub record Call : Type 0 where
  pub created : String
  pub updated : String
  pub disk : Option String

-- `value or default`
abbrev pub or_else : Option String → String → String
or_else none default = default
or_else (some s) default = if is_nonempty s then s else default

abbrev pub report_id : {J : Type 0} → Digest → Report J → String
report_id digest r = finding_identity digest r.project_id r.baseline_sha r.symptom r.reproduction

abbrev pub reported : {J : Type 0} → Digest → Call → Report J → CausalFinding J
reported digest call r = record {
  schema_version = "1.0";
  finding_id = report_id digest r;
  project_id = r.project_id;
  baseline_sha = r.baseline_sha;
  target_identity = r.target_identity;
  severity = r.severity;
  symptom = r.symptom;
  reproduction = r.reproduction;
  observed_error = r.observed_error;
  evidence_refs = sorted_set r.evidence_refs;
  proposal = r.proposal;
  reproduced_sha = or_else r.reproduced_sha r.baseline_sha;
  status = "ACTIVE";
  created_at = call.created;
  updated_at = call.updated;
  closure_reason = none;
  closure_evidence = [];
}

-- The end of `record`, on the finding that is there; `same` is the equality of proposals.
abbrev pub record_over :
    {J : Type 0}
    → (J → J → Bool)
    → Option String
    → CausalFinding J
    → Result (Option (CausalFinding J))
    → Files J
    → Result (CausalFinding J) × Files J
record_over same disk f (raise e) files = (raise e, files)
record_over same disk f (ok none) files = write disk f.project_id f.finding_id f files
record_over same disk f (ok (some existing)) files =
    if is_closed existing
    then (raise (causal_finding_error "closed causal finding cannot be reopened implicitly"), files)
    else if not (same existing.proposal f.proposal)
    then (
      raise (causal_finding_error "causal finding proposal changed for the same identity"),
      files,
    )
    else (ok existing, files)

-- `record`, which reads the files as the first argument has them and writes to the second: it takes no
-- lock, so that others may write in between.
abbrev pub record_between :
    {J : Type 0}
    → Digest
    → (J → J → Bool)
    → Call
    → Report J
    → Files J
    → Files J
    → Result (CausalFinding J) × Files J
record_between digest same call r before files =
    let f = reported digest call r in
    record_over same call.disk f (validate f >> get digest r.project_id f.finding_id before) files

-- A `record` during which nobody else writes.
unfoldable pub record_finding :
    {J : Type 0}
    → Digest
    → (J → J → Bool)
    → Call
    → Report J
    → Files J
    → Result (CausalFinding J) × Files J
record_finding digest same call r files = record_between digest same call r files files

abbrev pub closed : {J : Type 0} → Call → String → List String → CausalFinding J → CausalFinding J
closed call reason evidence_refs f = record f {
  status = "CLOSED";
  updated_at = call.updated;
  closure_reason = some reason;
  closure_evidence = sorted_set evidence_refs;
}

abbrev pub is_closed_for : {J : Type 0} → String → List String → CausalFinding J → Bool
is_closed_for reason evidence_refs f =
    (elim f.closure_reason [ none ↦ false | some given ↦ str_eq given reason ])
    && texts_eq f.closure_evidence evidence_refs

abbrev pub write_checked :
    {J : Type 0}
    → Option String
    → String
    → String
    → CausalFinding J
    → Result (Unit {0})
    → Files J
    → Result (CausalFinding J) × Files J
write_checked disk p i f (raise e) files = (raise e, files)
write_checked disk p i f (ok _) files = write disk p i f files

abbrev pub close_over :
    {J : Type 0}
    → Call
    → String
    → String
    → String
    → List String
    → Result (Option (CausalFinding J))
    → Files J
    → Result (CausalFinding J) × Files J
close_over call p i reason evidence_refs (raise e) files = (raise e, files)
close_over call p i reason evidence_refs (ok none) files =
    (raise (causal_finding_error "causal finding does not exist"), files)
close_over call p i reason evidence_refs (ok (some f)) files =
    if is_closed f
    then if not (is_closed_for reason evidence_refs f)
      then (raise (causal_finding_error "causal finding closure is not idempotent"), files)
      else (ok f, files)
    else if not (is_reason reason) || is_empty evidence_refs
    then (raise (causal_finding_error "causal finding closure requires governed evidence"), files)
    else write_checked call.disk p i (closed call reason evidence_refs f)
        (validate (closed call reason evidence_refs f)) files

-- `close`, which reads and writes as `record` does.
abbrev pub close_between :
    {J : Type 0}
    → Digest
    → Call
    → String
    → String
    → String
    → List String
    → Files J
    → Files J
    → Result (CausalFinding J) × Files J
close_between digest call p i reason evidence_refs before files =
    close_over call p i reason evidence_refs (get digest p i before) files

-- A `close` during which nobody else writes.
unfoldable pub close :
    {J : Type 0}
    → Digest
    → Call
    → String
    → String
    → String
    → List String
    → Files J
    → Result (CausalFinding J) × Files J
close digest call p i reason evidence_refs files =
    close_between digest call p i reason evidence_refs files files
