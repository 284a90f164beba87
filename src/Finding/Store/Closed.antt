-- ===== src/Finding/Store/Closed.antt =====
-- A finding that is closed stays as it is, whatever is recorded and closed later.
use agf_orchestrator.Base.{
  Bool, true, false, not, ◌||◌, Option, none, some, List, [], ◌∷◌, String, ◌≡◌, refl, ◌∙◌, subst,
  arith, Bool-cases, inl, inr, ◌≢◌, and_true,
}
use agf_orchestrator.Base.Raise.{Result, ok, raise, >>=-eq-ok, ◌>>◌}
use agf_orchestrator.Base.Text.{str_eq, str_eq_iff}
use agf_orchestrator.Finding.Models.{
  Digest, CausalFinding, validate, is_closed, is_reason, is_empty,
}
use agf_orchestrator.Finding.Store.{
  Files, put, write, get, Call, Report, reported, record_over, record_finding, closed, close,
  close_over, write_checked,
}
use agf_orchestrator.Finding.Store.Files.{same_key, get-put_other}

-- A call of the store that may write.
pub data Operation (J : Type 0) : Type 0 where
  records : Call → Report J → Operation J
  closes : Call → String → String → String → List String → Operation J

-- The files after a sequence of calls, whether they return or raise.
abbrev pub performs :
    {J : Type 0} → Digest → (J → J → Bool) → List (Operation J) → Files J → Files J
performs digest same [] files = files
performs digest same (records call r ∷ ops) files =
    performs digest same ops (record_finding digest same call r files).1
performs digest same (closes call p i reason refs ∷ ops) files =
    performs digest same ops (close digest call p i reason refs files).1

module _ {J : Type 0} (digest : Digest) (same : J → J → Bool) (p i : String) (c : CausalFinding J)
    (shut : is_closed c ≡ true) where
  -- The files hold the closed finding.
  abbrev Holds : Files J → Type 0
  Holds files = get digest p i files ≡ ok (some c)

  -- A write for a name that held no closed finding.
  put-Holds :
      (q j : String) (f : CausalFinding J) (o : Option (CausalFinding J)) (files : Files J)
      → get digest q j files ≡ ok o
      → o ≢ some c
      → Holds files
      → Holds (put q j f files)
  put-Holds q j f o files got other held = elim (Bool-cases (same_key q j p i)) [
    | inl here ↦
        let (a, b) = and_true (str_eq q p) (str_eq j i) here in
        let ea = (str_eq_iff q p).0 a in
        let eb = (str_eq_iff j i).0 b in let got' = rw (ea, eb) at got in absurd (other cc)
    | inr there ↦ get-put_other digest q j p i f files there ∙ held
  ]

  write-Holds :
      (disk : Option String) (q j : String) (f : CausalFinding J) (o : Option (CausalFinding J))
      (files : Files J)
      → get digest q j files ≡ ok o
      → o ≢ some c
      → Holds files
      → Holds (write disk q j f files).1
  write-Holds none q j f o files got other held = put-Holds q j f o files got other held
  write-Holds (some m) q j f o files got other held = held

  none_other : none ≢ some c
  none_other h = cc

  live_other : (f : CausalFinding J) → is_closed f ≡ false → some f ≢ some c
  live_other f live h = let e : f ≡ c = cc in let k = subst (λ x. is_closed x ≡ false) e live in cc

  record_over-Holds :
      (disk : Option String) (f : CausalFinding J) (q : Result (Option (CausalFinding J)))
      (files : Files J)
      → (q ≡ ok none → get digest f.project_id f.finding_id files ≡ ok none)
      → Holds files
      → Holds (record_over same disk f q files).1
  record_over-Holds disk f (raise e) files got held = held
  record_over-Holds disk f (ok none) files got held =
      write-Holds disk f.project_id f.finding_id f none files (got refl) none_other held
  record_over-Holds disk f (ok (some g)) files got held = elim (Bool-cases (is_closed g)) [
    | inl over ↦ rw over held
    | inr live ↦ elim (Bool-cases (same g.proposal f.proposal)) [
      | inl agreed ↦ rw (live, agreed) held
      | inr differs ↦ rw (live, differs) held
    ]
  ]

  record_finding-Holds :
      (call : Call) (r : Report J) (files : Files J)
      → Holds files
      → Holds (record_finding digest same call r files).1
  unfolding record_finding
  record_finding-Holds call r files held =
      let new = reported digest call r in
      record_over-Holds call.disk new (validate new >> get digest r.project_id new.finding_id files)
        files (λ h. let (_, _, g) = >>=-eq-ok (validate new) _ h in g) held

  write_checked-Holds :
      (disk : Option String) (q j : String) (f g : CausalFinding J) (checked : Result (Unit {0}))
      (files : Files J)
      → get digest q j files ≡ ok (some g)
      → is_closed g ≡ false
      → Holds files
      → Holds (write_checked disk q j f checked files).1
  write_checked-Holds disk q j f g (raise e) files got live held = held
  write_checked-Holds disk q j f g (ok tt) files got live held =
      write-Holds disk q j f (some g) files got (live_other g live) held

  close_over-Holds :
      (call : Call) (q j reason : String) (refs : List String)
      (o : Result (Option (CausalFinding J))) (files : Files J)
      → get digest q j files ≡ o
      → Holds files
      → Holds (close_over call q j reason refs o files).1
  close_over-Holds call q j reason refs (raise e) files got held = held
  close_over-Holds call q j reason refs (ok none) files got held = held
  close_over-Holds call q j reason refs (ok (some g)) files got held =
      elim (Bool-cases (is_closed g)) [
        | inl over ↦ rw over (ground (arith, held))
        | inr live ↦ elim (Bool-cases (not (is_reason reason) || is_empty refs)) [
          | inl bad ↦ rw (live, bad) held
          | inr good ↦
              rw (live, good)
                (write_checked-Holds call.disk q j (closed call reason refs g) g
                  (validate (closed call reason refs g)) files got live held)
        ]
      ]

  performs-Holds :
      (ops : List (Operation J)) (files : Files J)
      → Holds files
      → Holds (performs digest same ops files)
  unfolding close
  performs-Holds [] files held = held
  performs-Holds (records call r ∷ ops) files held =
      performs-Holds ops _ (record_finding-Holds call r files held)
  performs-Holds (closes call q j reason refs ∷ ops) files held =
      performs-Holds ops _
        (close_over-Holds call q j reason refs (get digest q j files) files refl held)

-- A finding that is closed stays as it is: after any sequence of `record` and `close` calls, of any
-- arguments, whether they return or raise, `get` still returns the same closed finding.
pub performs-closed :
    {J : Type 0} (digest : Digest) (same : J → J → Bool) (p i : String) (c : CausalFinding J)
    (ops : List (Operation J)) (files : Files J)
    → is_closed c ≡ true
    → get digest p i files ≡ ok (some c)
    → get digest p i (performs digest same ops files) ≡ ok (some c)
performs-closed digest same p i c ops files shut held =
    performs-Holds digest same p i c shut ops files held
