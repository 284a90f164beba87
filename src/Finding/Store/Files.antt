-- ===== src/Finding/Store/Files.antt =====
-- What the files of findings hold after a write, and what a `record` that returns has done.
use agf_orchestrator.Base.{
  Bool, true, false, not, ◌&&◌, Option, none, some, [], ◌∷◌, String, ◌≡◌, refl, ap, subst,
  Bool-cases, inl, inr, ◌⊎◌, and_true,
}
use agf_orchestrator.Base.Raise.{Result, ok, raise, >>=-eq-ok, ◌>>◌, raise_if}
use agf_orchestrator.Base.Text.{str_eq, str_eq_iff, str_eq_refl}
use agf_orchestrator.Finding.Models.{
  Digest, CausalFinding, validate, finding_from_dict, is_closed, identity_of,
}
use agf_orchestrator.Finding.Store.{
  Contents, malformed, document, Entry, Files, is_at, lookup, put, check_path, read, read_found,
  get, record_over,
}

-- Whether two files have one name.
abbrev pub same_key : String → String → String → String → Bool
same_key p i q j = str_eq p q && str_eq i j

module _ {J : Type 0} where
  is_at-names :
      (p i : String) (e : Entry J) → is_at p i e ≡ true → (e.project_id ≡ p) × (e.finding_id ≡ i)
  is_at-names p i e h =
      let (a, b) = and_true (str_eq e.project_id p) (str_eq e.finding_id i) h in
      ((str_eq_iff e.project_id p).0 a, (str_eq_iff e.finding_id i).0 b)

  pub lookup-put :
      (p i : String) (f : CausalFinding J) (files : Files J)
      → lookup p i (put p i f files) ≡ some (document f)
  lookup-put p i f [] = rw (str_eq_refl p, str_eq_refl i)
  lookup-put p i f (e ∷ es) = elim (Bool-cases (is_at p i e)) [
    | inl here ↦ rw (here, here)
    | inr there ↦ rw (there, there) (lookup-put p i f es)
  ]

  pub lookup-put_other :
      (p i q j : String) (f : CausalFinding J) (files : Files J)
      → same_key p i q j ≡ false
      → lookup q j (put p i f files) ≡ lookup q j files
  lookup-put_other p i q j f [] other = rw other
  lookup-put_other p i q j f (e ∷ es) other = elim (Bool-cases (is_at p i e)) [
    | inl here ↦
        let (a, b) = is_at-names p i e here in
        let elsewhere : is_at q j e ≡ false = rw (a, b) other in rw (here, elsewhere)
    | inr there ↦ elim (Bool-cases (is_at q j e)) [
      | inl found ↦ rw (there, found)
      | inr missed ↦ rw (there, missed) (lookup-put_other p i q j f es other)
    ]
  ]

  pub get-put :
      (digest : Digest) (p i : String) (f : CausalFinding J) (files : Files J)
      → check_path p i ≡ ok tt
      → finding_from_dict digest f ≡ ok f
      → get digest p i (put p i f files) ≡ ok (some f)
  unfolding get
  get-put digest p i f files path sound = rw (path, lookup-put p i f files, sound)

  pub get-put_other :
      (digest : Digest) (p i q j : String) (f : CausalFinding J) (files : Files J)
      → same_key p i q j ≡ false
      → get digest q j (put p i f files) ≡ get digest q j files
  unfolding get
  get-put_other digest p i q j f files other =
      ap (λ o. check_path q j >> read_found digest o) (lookup-put_other p i q j f files other)

  pub get-path :
      (digest : Digest) (p i : String) (files : Files J) (o : Option (CausalFinding J))
      → get digest p i files ≡ ok o
      → check_path p i ≡ ok tt
  unfolding get
  get-path digest p i files o h = let (_, path, _) = >>=-eq-ok (check_path p i) _ h in path

  -- A finding that is read is one that `finding_from_dict` accepts.
  pub get_sound :
      (digest : Digest) (p i : String) (files : Files J) (f : CausalFinding J)
      → get digest p i files ≡ ok (some f)
      → finding_from_dict digest f ≡ ok f
  unfolding get finding_from_dict
  get_sound digest p i files f h =
      let (_, _, k) = >>=-eq-ok (check_path p i) _ h in found (lookup p i files) k
    where
      accepted :
          (g : CausalFinding J)
          → finding_from_dict digest g ≡ ok f
          → finding_from_dict digest f ≡ ok f
      accepted g k =
          let (_, _, k₁) = >>=-eq-ok (validate g) _ k in
          let (_, _, e) =
            >>=-eq-ok (raise_if (not (str_eq g.finding_id (identity_of digest g))) _) _ k₁ in
          let same : g ≡ f = cc in subst (λ x. finding_from_dict digest x ≡ ok f) same k

      contents : (c : Contents J) → read digest c ≡ ok f → finding_from_dict digest f ≡ ok f
      contents (malformed e) k = absurd (cc)
      contents (document g) k = accepted g k

      found :
          (o : Option (Contents J))
          → read_found digest o ≡ ok (some f)
          → finding_from_dict digest f ≡ ok f
      found none k = absurd (cc)
      found (some c) k =
          let (g, r, e) = >>=-eq-ok (read digest c) _ k in
          let same : g ≡ f = cc in contents c (subst (λ x. read digest c ≡ ok x) same r)

  abbrev pub Written :
      Option String → CausalFinding J → CausalFinding J → Files J → Files J → Type 0
  Written disk new f files files' =
      (disk ≡ none) × (f ≡ new) × (files' ≡ put new.project_id new.finding_id new files)

  abbrev pub Kept : (J → J → Bool) → CausalFinding J → CausalFinding J → Files J → Files J → Type 0
  Kept same new f files files' =
      (is_closed f ≡ false) × (same f.proposal new.proposal ≡ true) × (files' ≡ files)

  pub record_over-eq-ok :
      (same : J → J → Bool) (disk : Option String) (new f : CausalFinding J)
      (q : Result (Option (CausalFinding J))) (files files' : Files J)
      → record_over same disk new q files ≡ (ok f, files')
      → ((q ≡ ok none) × Written disk new f files files')
        ⊎ ((q ≡ ok (some f)) × Kept same new f files files')
  record_over-eq-ok same disk new f (raise e) files files' h = absurd (cc)
  record_over-eq-ok same none new f (ok none) files files' h = inl (refl, (refl, cc, cc))
  record_over-eq-ok same (some m) new f (ok none) files files' h = absurd (cc)
  record_over-eq-ok same disk new f (ok (some g)) files files' h = elim (Bool-cases (is_closed g)) [
    | inl shut ↦ absurd (let k = rw shut at h in cc)
    | inr live ↦ elim (Bool-cases (same g.proposal new.proposal)) [
      | inl agreed ↦
          let k = rw (live, agreed) at h in
          let e : g ≡ f = cc in
          inr (
            ap (λ x. ok (some x)) e,
            (
              subst (λ x. is_closed x ≡ false) e live,
              subst (λ x. same x.proposal new.proposal ≡ true) e agreed,
              cc,
            ),
          )
      | inr differs ↦ absurd (let k = rw (live, differs) at h in cc)
    ]
  ]
