-- ===== src/Tests/Findings.antt =====
-- Causal findings (src/agf_orchestrator/causal_findings.py) on concrete inputs.
use agf_orchestrator.Base.{
  ◌≡◌, refl, none, some, List, [], ◌∷◌, String, any, All, false, if◌then◌else◌,
}
use agf_orchestrator.Base.Raise.{ok, raise, causal_finding_error}
use agf_orchestrator.Base.Text.{
  str_eq, str_eq_refl, str_lt, starts_with, has_text, is_space, is_nonempty,
}
use agf_orchestrator.Base.Strip.{strip}
use agf_orchestrator.Scheduler.Store.{texts_eq}
use agf_orchestrator.Base.Order.{sorted_set}
use agf_orchestrator.Finding.Models.{
  Digest, CausalFinding, finding_identity, validate, finding_from_dict, is_closed,
}
use agf_orchestrator.Finding.Store.{
  Files, Call, Report, get, put, report_id, reported, record_between, record_finding, close, active,
}
use agf_orchestrator.Finding.Store.Again.{record_finding_again, close_again}
use agf_orchestrator.Finding.Store.Active.{is_active_file, IsSound, any-active}
use agf_orchestrator.Finding.Store.Race.{record_between_reopens}
use agf_orchestrator.Finding.Store.Closed.{records, closes, performs, performs-closed}

abbrev digest : Digest
digest s = "0123456789abcdef01234567"

abbrev sha : String
sha = "0123456789012345678901234567890123456789"

-- The proposals are texts.
abbrev report : Report String
report = record {
  project_id = "project-1";
  baseline_sha = sha;
  target_identity = "a target";
  symptom = "a crash";
  reproduction = "run it";
  observed_error = "an error";
  evidence_refs = "b" ∷ "a" ∷ "b" ∷ [];
  proposal = "a fix";
  severity = "REQUIRED";
  reproduced_sha = none;
}

abbrev call : Call
call = record { created = "t1"; updated = "t1"; disk = none }

abbrev later : Call
later = record { created = "t2"; updated = "t3"; disk = some "No space left on device" }

abbrev id : String
id = "finding-0123456789abcdef01234567"

abbrev found : CausalFinding String
found = record (reported digest call report) { finding_id = id; evidence_refs = "a" ∷ "b" ∷ [] }

abbrev files : Files String
files = put "project-1" id found []

sorted_refs : sorted_set ("b" ∷ "a" ∷ "b" ∷ []) ≡ "a" ∷ "b" ∷ []
unfolding sorted_set str_lt
sorted_refs = refl

recorded : record_finding digest str_eq call report [] ≡ (ok found, files)
unfolding record_finding validate get finding_from_dict finding_identity sorted_set str_lt
    starts_with has_text is_space is_nonempty strip
recorded = refl

record_finding_again_example :
    (get digest "project-1" (report_id digest report) files ≡ ok (some found))
    × (record_finding digest str_eq later report files ≡ (ok found, files))
record_finding_again_example =
    record_finding_again digest str_eq str_eq_refl call later report found [] files recorded

there : get digest "project-1" id files ≡ ok (some found)
unfolding validate get finding_from_dict finding_identity starts_with has_text is_space is_nonempty
    strip
there = refl

-- The evidence is not sorted.
abbrev refs : List String
refs = "d" ∷ "c" ∷ []

abbrev shut : CausalFinding String
shut = record found {
  status = "CLOSED";
  updated_at = "t1";
  closure_reason = some "DELIVERED";
  closure_evidence = "c" ∷ "d" ∷ [];
}

abbrev after : Files String
after = put "project-1" id shut files

closes_once : close digest call "project-1" id "DELIVERED" refs files ≡ (ok shut, after)
unfolding close validate get finding_from_dict finding_identity sorted_set str_lt starts_with
    has_text is_space is_nonempty strip
closes_once = refl

close_again_example :
    (get digest "project-1" id after ≡ ok (some shut))
    × (close digest later "project-1" id "DELIVERED" refs after ≡ (
        if texts_eq (sorted_set refs) refs
        then (ok shut, after)
        else (raise (causal_finding_error "causal finding closure is not idempotent"), after)))
close_again_example =
    close_again digest "project-1" id "DELIVERED" refs call later found shut files after there refl
      closes_once

closed_there : get digest "project-1" id after ≡ ok (some shut)
unfolding validate get finding_from_dict finding_identity starts_with has_text is_space is_nonempty
    strip
closed_there = refl

-- The same close raises.
not_again :
    close digest later "project-1" id "DELIVERED" refs after
    ≡ (raise (causal_finding_error "causal finding closure is not idempotent"), after)
unfolding close validate get finding_from_dict finding_identity sorted_set str_lt starts_with
    has_text is_space is_nonempty strip
not_again = refl

listed : active digest "project-1" (some sha) files ≡ ok (found ∷ [])
unfolding active validate get finding_from_dict finding_identity str_lt starts_with has_text
    is_space is_nonempty strip
listed = refl

any-active_example :
    (any (λ f. str_eq f.finding_id id) (found ∷ [])
      ≡ any (is_active_file "project-1" (some sha) (λ f. str_eq f.finding_id id)) files)
    × All (IsSound digest) (found ∷ [])
any-active_example =
    any-active digest "project-1" (some sha) files (found ∷ []) (λ f. str_eq f.finding_id id) listed

performs-closed_example :
    get digest "project-1" id (
      performs digest str_eq
        (records later report ∷ closes call "project-1" id "DELIVERED" refs ∷ [])
        after)
    ≡ ok (some shut)
performs-closed_example =
    performs-closed digest str_eq "project-1" id shut
      (records later report ∷ closes call "project-1" id "DELIVERED" refs ∷ []) after refl
      closed_there

valid : validate (reported digest call report) ≡ ok tt
unfolding validate finding_identity sorted_set str_lt starts_with has_text is_space is_nonempty
    strip
valid = refl

abbrev no_files : Files String
no_files = []

nothing_there : get digest "project-1" (report_id digest report) no_files ≡ ok none
unfolding get finding_identity starts_with
nothing_there = refl

shut_there : get digest "project-1" (report_id digest report) after ≡ ok (some shut)
unfolding validate get finding_from_dict finding_identity starts_with has_text is_space is_nonempty
    strip
shut_there = refl

record_between_reopens_example :
    (record_finding digest str_eq call report after
      ≡ (raise (causal_finding_error "closed causal finding cannot be reopened implicitly"), after))
    × (f : CausalFinding String) × (files' : Files String) × (record_between digest str_eq call
          report [] after
        ≡ (ok f, files'))
    × (get digest "project-1" (report_id digest report) files' ≡ ok (some f))
    × (is_closed f ≡ false)
record_between_reopens_example =
    record_between_reopens digest str_eq call report [] after shut refl valid nothing_there
      shut_there refl
