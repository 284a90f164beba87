-- ===== src/Finding/Store/Again.antt =====
-- A `record` and a `close` that are made again.
use agf_orchestrator.Base.{
  Bool, true, false, not, ◌||◌, Option, none, some, List, String, ◌≡◌, refl, sym, subst, Bool-cases,
  inl, inr, if◌then◌else◌,
}
use agf_orchestrator.Base.Raise.{Result, ok, raise, causal_finding_error, >>=-eq-ok, ◌>>◌}
use agf_orchestrator.Base.Text.{str_eq, str_eq_refl}
use agf_orchestrator.Scheduler.Store.{texts_eq}
use agf_orchestrator.Base.Order.{sorted_set}
use agf_orchestrator.Finding.Models.{
  Digest, CausalFinding, validate, finding_from_dict, is_closed, identity_of, is_reason, is_empty,
}
use agf_orchestrator.Finding.Store.{
  Files, put, get, Call, Report, report_id, reported, record_finding, closed, close, write_checked,
}
use agf_orchestrator.Finding.Store.Files.{get-put, get-path, get_sound, record_over-eq-ok}

module _ {J : Type 0} (digest : Digest) (same : J → J → Bool)
    (same_refl : (x : J) → same x x ≡ true) where
  -- What the files hold once a report is recorded.
  abbrev IsRecorded : Report J → CausalFinding J → Files J → Type 0
  IsRecorded r f files =
      (get digest r.project_id (report_id digest r) files ≡ ok (some f))
      × (is_closed f ≡ false)
      × (same f.proposal r.proposal ≡ true)

  reported_sound :
      (call : Call) (r : Report J)
      → validate (reported digest call r) ≡ ok tt
      → finding_from_dict digest (reported digest call r) ≡ ok (reported digest call r)
  unfolding finding_from_dict
  reported_sound call r valid = rw (valid, str_eq_refl (report_id digest r))

  record_finding-IsRecorded :
      (call : Call) (r : Report J) (f : CausalFinding J) (files files' : Files J)
      → record_finding digest same call r files ≡ (ok f, files')
      → (validate (reported digest call r) ≡ ok tt) × IsRecorded r f files'
  unfolding record_finding
  record_finding-IsRecorded call r f files files' h =
      let new = reported digest call r in
      let q = validate new >> get digest r.project_id new.finding_id files in
      elim (record_over-eq-ok same call.disk new f q files files' h) [
        | inl (nothing, (_, e, e')) ↦
            let (_, valid, g) = >>=-eq-ok (validate new) _ nothing in
            let path = get-path digest r.project_id new.finding_id files none g in
            let got =
              get-put digest r.project_id new.finding_id new files path
                (reported_sound call r valid) in
            (
              valid,
              subst (λ x. IsRecorded r x files') (sym e)
                  (subst (IsRecorded r new) (sym e') (got, refl, same_refl r.proposal)),
            )
        | inr (there, (live, agreed, e')) ↦
            let (_, valid, g) = >>=-eq-ok (validate new) _ there in
            (valid, subst (IsRecorded r f) (sym e') (g, live, agreed))
      ]

  -- With an equality of proposals that is reflexive, a `record` that returns leaves files in which `get`
  -- finds the finding that it returned, and the same `record` made again, at any time and whether or not
  -- the disk would take a write, returns that finding and changes nothing.
  pub record_finding_again :
      (call call' : Call) (r : Report J) (f : CausalFinding J) (files files' : Files J)
      → record_finding digest same call r files ≡ (ok f, files')
      → (get digest r.project_id (report_id digest r) files' ≡ ok (some f))
        × (record_finding digest same call' r files' ≡ (ok f, files'))
  unfolding record_finding validate
  record_finding_again call call' r f files files' h =
      let (valid, (got, live, agreed)) = record_finding-IsRecorded call r f files files' h in
      (got, rw (valid, got, live, agreed))

module _ {J : Type 0} (digest : Digest) (p i reason : String) (refs : List String) where
  closed_sound :
      (call : Call) (f : CausalFinding J)
      → finding_from_dict digest f ≡ ok f
      → validate (closed call reason refs f) ≡ ok tt
      → finding_from_dict digest (closed call reason refs f) ≡ ok (closed call reason refs f)
  unfolding finding_from_dict
  closed_sound call f sound valid =
      let (_, _, k) = >>=-eq-ok (validate f) _ sound in
      elim (Bool-cases (str_eq f.finding_id (identity_of digest f))) [
        | inl bound ↦ rw (valid, bound)
        | inr unbound ↦ absurd (let k' = rw unbound at k in cc)
      ]

  write_checked-eq-ok :
      (disk : Option String) (f c : CausalFinding J) (checked : Result (Unit {0}))
      (files files' : Files J)
      → write_checked disk p i f checked files ≡ (ok c, files')
      → (checked ≡ ok tt) × (c ≡ f) × (files' ≡ put p i f files)
  write_checked-eq-ok disk f c (raise e) files files' h = absurd (cc)
  write_checked-eq-ok none f c (ok tt) files files' h = (refl, cc, cc)
  write_checked-eq-ok (some m) f c (ok tt) files files' h = absurd (cc)

  close-IsClosed :
      (call : Call) (f c : CausalFinding J) (files files' : Files J)
      → get digest p i files ≡ ok (some f)
      → is_closed f ≡ false
      → close digest call p i reason refs files ≡ (ok c, files')
      → (c ≡ closed call reason refs f) × (get digest p i files' ≡ ok (some c))
  unfolding close
  close-IsClosed call f c files files' got live h =
      let h' = rw (got, live) at h in
      elim (Bool-cases (not (is_reason reason) || is_empty refs)) [
        | inl bad ↦ absurd (let k = rw bad at h' in cc)
        | inr good ↦
            let new = closed call reason refs f in
            let (valid, e, e') =
              write_checked-eq-ok call.disk new c (validate new) files files' (rw good at h') in
            let path = get-path digest p i files (some f) got in
            let sound = closed_sound call f (get_sound digest p i files f got) valid in
            (e, rw (e, e') (get-put digest p i new files path sound))
      ]

  -- After a `close` of an open finding that returns, `get` finds the closed finding, and the same `close`
  -- made again changes nothing: it returns the finding if the evidence was given sorted and without
  -- repetition, and raises otherwise.
  pub close_again :
      (call call' : Call) (f c : CausalFinding J) (files files' : Files J)
      → get digest p i files ≡ ok (some f)
      → is_closed f ≡ false
      → close digest call p i reason refs files ≡ (ok c, files')
      → (get digest p i files' ≡ ok (some c))
        × (close digest call' p i reason refs files' ≡ (
            if texts_eq (sorted_set refs) refs
            then (ok c, files')
            else (raise (causal_finding_error "causal finding closure is not idempotent"), files')))
  unfolding close
  close_again call call' f c files files' got live h =
      let (e, got') = close-IsClosed call f c files files' got live h in
      (
        got',
        elim (Bool-cases (texts_eq (sorted_set refs) refs)) [
          | inl agreed ↦ rw (got', e, str_eq_refl reason, agreed)
          | inr differs ↦ rw (got', e, str_eq_refl reason, differs)
        ],
      )
