-- ===== src/Finding/Store/Race.antt =====
-- A `record` in whose middle others write (src/agf_orchestrator/causal_findings.py).
use agf_orchestrator.Base.{Bool, true, false, none, some, ◌≡◌, refl}
use agf_orchestrator.Base.Raise.{ok, raise, causal_finding_error}
use agf_orchestrator.Base.Text.{str_eq_refl}
use agf_orchestrator.Finding.Models.{Digest, CausalFinding, validate, finding_from_dict, is_closed}
use agf_orchestrator.Finding.Store.{
  Files, put, get, Call, Report, report_id, reported, record_between, record_finding,
}
use agf_orchestrator.Finding.Store.Files.{get-put, get-path}

-- `record` reads the file of its finding and writes it without a lock. If a valid report finds no such
-- file, and a closed finding of that identity is there when it writes, the disk taking the write, then it
-- returns a finding that is not closed and `get` finds that finding in place of the closed one; a `record`
-- that nobody interrupts raises on those files and leaves them.
pub record_between_reopens :
    {J : Type 0} (digest : Digest) (same : J → J → Bool) (call : Call) (r : Report J)
    (before files : Files J) (c : CausalFinding J)
    → call.disk ≡ none
    → validate (reported digest call r) ≡ ok tt
    → get digest r.project_id (report_id digest r) before ≡ ok none
    → get digest r.project_id (report_id digest r) files ≡ ok (some c)
    → is_closed c ≡ true
    → (record_finding digest same call r files ≡ (
      raise (causal_finding_error "closed causal finding cannot be reopened implicitly"),
      files,
    ))
      × (f : CausalFinding J) × (files' : Files J) × (record_between digest same call r before files
          ≡ (ok f, files'))
      × (get digest r.project_id (report_id digest r) files' ≡ ok (some f))
      × (is_closed f ≡ false)
unfolding finding_from_dict record_finding validate
record_between_reopens digest same call r before files c disk valid absent closed_there shut =
    let new = reported digest call r in
    let path = get-path digest r.project_id (report_id digest r) before none absent in
    let sound : finding_from_dict digest new ≡ ok new =
      rw (valid, str_eq_refl (report_id digest r)) in
    (
      rw (valid, closed_there, shut),
      new,
      put r.project_id (report_id digest r) new files,
      rw (valid, absent, disk),
      get-put digest r.project_id (report_id digest r) new files path sound,
      refl,
    )
