-- ===== src/Capability/Selection/Eligible.antt =====
-- What the candidate that `select` chooses has passed.
use agf_orchestrator.Base.{
  Bool, true, false, Option, none, some, List, [], ◌∷◌, String, ◌≡◌, refl, sym, ap, ◌∙◌, arith,
  Bool-cases, Option-cases, inl, inr, length, ◌==◌, any, All, find_first,
}
use agf_orchestrator.Base.Raise.{Result, ok, raise, >>=-eq-ok, Result-cases}
use agf_orchestrator.Base.Sort.{any-sort_by}
use agf_orchestrator.Base.Text.{str_eq, str_eq_iff}
use agf_orchestrator.Capability.Profiles.{
  Platform, CapabilityProfile, validate, validate_at, validate_binding, require_supported,
}
use agf_orchestrator.Capability.Selection.{
  failed_from, gate_list, failed, CapabilityCandidate, validate_candidate, SelectionResult, key_lt,
  order_candidates, is_diagnostic, unsupported_reason, Request, active_gates, required,
  reason_after, or_reason, checks, gate_reason, rejection_reason, reason_of, select,
}
use agf_orchestrator.Capability.Selection.First.{is_eligible, chosen_as, choice, select-Answers}

failed_from-All :
    (gates : List (String × Option Bool))
    → (length (failed_from gates) == 0) ≡ true
    → All (λ g. g.1 ≡ some true) gates
failed_from-All [] h = tt
failed_from-All ((name, none) ∷ gates) h = absurd (ground (arith, h))
failed_from-All ((name, some true) ∷ gates) h = (refl, failed_from-All gates h)
failed_from-All ((name, some false) ∷ gates) h = absurd (ground (arith, h))

module _ (platform : Platform) (r : Request) where
  abbrev pub Accepts : CapabilityProfile → List String → Type 0
  Accepts p names = All (λ name. (v : String) × (require_supported platform p name ≡ ok v)) names

  unsupported-Accepts :
      (p : CapabilityProfile) (names : List String)
      → unsupported_reason platform p names ≡ none
      → Accepts p names
  unsupported-Accepts p [] h = tt
  unsupported-Accepts p (name ∷ names) h = elim (Result-cases (require_supported platform p name)) [
    | inl (v, has) ↦ ((v, has), unsupported-Accepts p names (rw has at h))
    | inr (e, lacks) ↦ absurd (let k = rw lacks at h in cc)
  ]

  -- Everything that `select` asks of a candidate.
  abbrev pub Accepted : CapabilityCandidate → Type 0
  Accepted c =
      (validate platform c.profile ≡ ok tt)
      × (validate_at platform c.profile r.now ≡ ok tt)
      × (c.profile.project_id ≡ r.project_id)
      × (is_diagnostic c ≡ false)
      × All (λ g. g.1 ≡ some true) (gate_list (active_gates r))
      × Accepts c.profile (required r)

  gate_reason-none :
      (c : CapabilityCandidate)
      → gate_reason platform r c ≡ none
      → (is_diagnostic c ≡ false)
        × All (λ g. g.1 ≡ some true) (gate_list (active_gates r))
        × Accepts c.profile (required r)
  gate_reason-none c h = elim (Bool-cases (is_diagnostic c)) [
    | inl diagnostic ↦ absurd (let k = rw diagnostic at h in cc)
    | inr usable ↦ elim (Bool-cases (length (failed (active_gates r)) == 0)) [
      | inr some_failed ↦ absurd (let k = rw (usable, some_failed) at h in cc)
      | inl none_failed ↦ (
        usable,
        failed_from-All (gate_list (active_gates r)) none_failed,
        unsupported-Accepts c.profile (required r) (rw (usable, none_failed) at h),
      )
    ]
  ]

  checks-eq-ok :
      (c : CapabilityCandidate)
      → checks platform r c ≡ ok tt
      → (validate platform c.profile ≡ ok tt)
        × (validate_at platform c.profile r.now ≡ ok tt)
        × (c.profile.project_id ≡ r.project_id)
  checks-eq-ok c h =
      let (_, candidate, h₁) = >>=-eq-ok (validate_candidate platform c) _ h in
      let (_, valid, _) = >>=-eq-ok (validate platform c.profile) _ candidate in
      let (_, binding, current) =
        >>=-eq-ok (validate_binding r.project_id c.profile.provider_id c.profile) _ h₁ in
      (
        valid,
        current,
        elim (Bool-cases (str_eq c.profile.project_id r.project_id)) [
          | inl same ↦ (str_eq_iff c.profile.project_id r.project_id).0 same
          | inr other ↦ absurd (let k = rw other at binding in cc)
        ],
      )

  or_reason-none : (a b : Option String) → or_reason a b ≡ none → b ≡ none
  or_reason-none none b h = h
  or_reason-none (some a) b h = absurd (cc)

  reason_after-none :
      (c : Result (Unit {0})) (rest : Option String)
      → reason_after c rest ≡ none
      → (c ≡ ok tt) × (rest ≡ none)
  reason_after-none (ok tt) rest h = (refl, h)
  reason_after-none (raise e) rest h = absurd (cc)

  is_eligible-Accepted : (c : CapabilityCandidate) → is_eligible platform r c ≡ true → Accepted c
  unfolding reason_of rejection_reason
  is_eligible-Accepted c h = elim (Option-cases (reason_of platform r c)) [
    | inr (reason, refused) ↦ absurd (let k = rw refused at h in cc)
    | inl eligible ↦
        let (checked, passed) =
          reason_after-none (checks platform r c) (gate_reason platform r c)
            (or_reason-none (r.precomputed_rejections c.profile.provider_id) _ eligible) in
        let (valid, current, bound) = checks-eq-ok c checked in
        let (usable, gates, supports) = gate_reason-none c passed in
        (valid, current, bound, usable, gates, supports)
  ]

  -- A candidate among the given ones: every test that it passes, one of them passes.
  abbrev pub Among : CapabilityCandidate → List CapabilityCandidate → Type 0
  Among c cs = (q : CapabilityCandidate → Bool) → q c ≡ true → any q cs ≡ true

  -- A choice stands for a candidate that passes.
  abbrev Stands : (String × String × Bool) → List CapabilityCandidate → Type 0
  Stands t cs =
      (c : CapabilityCandidate) × Among c cs
      × Accepted c
      × (t.0 ≡ c.profile.provider_id)
      × (t.1 ≡ c.profile.profile_id)

  find_first-Stands :
      (cs : List CapabilityCandidate) (t : String × String × Bool)
      → chosen_as platform r true (find_first (is_eligible platform r) cs) ≡ some t
      → Stands t cs
  find_first-Stands [] t h = absurd (cc)
  find_first-Stands (c ∷ cs) t h = elim (Bool-cases (is_eligible platform r c)) [
    | inl eligible ↦
        let e : (c.profile.provider_id, c.profile.profile_id, true) ≡ t =
          let k = rw eligible at h in cc in
        (
          c,
          (λ q h. rw h),
          is_eligible-Accepted c eligible,
          ap (λ x. x.0) (sym e),
          ap (λ x. x.1) (sym e),
        )
    | inr refused ↦
        let (d, among, passes, e, e') = find_first-Stands cs t (rw refused at h) in
        (d, (λ q h. let m = among q h in ground arith), passes, e, e')
  ]

  choice-Stands :
      (cs : List CapabilityCandidate) (t : String × String × Bool)
      → choice platform r cs ≡ some t
      → Stands t cs
  choice-Stands [] t h = absurd (cc)
  choice-Stands (c ∷ cs) t h = elim (Bool-cases (is_eligible platform r c)) [
    | inl eligible ↦
        let e : (c.profile.provider_id, c.profile.profile_id, false) ≡ t =
          let k = rw eligible at h in cc in
        (
          c,
          (λ q h. rw h),
          is_eligible-Accepted c eligible,
          ap (λ x. x.0) (sym e),
          ap (λ x. x.1) (sym e),
        )
    | inr refused ↦ elim (Bool-cases (active_gates r).allow_fallback) [
      | inl allowed ↦
          let (d, among, passes, e, e') = find_first-Stands cs t (rw (refused, allowed) at h) in
          (d, (λ q h. let m = among q h in ground arith), passes, e, e')
      | inr forbidden ↦ absurd (let k = rw (refused, forbidden) at h in cc)
    ]
  ]

-- The candidate that a result stands for, with what the code's own tests say of it.
pub select-Accepted :
    (platform : Platform) (r : Request) (candidates : List CapabilityCandidate)
    (s : SelectionResult)
    → (length (required r) == 0) ≡ false
    → select platform r candidates ≡ ok s
    → (c : CapabilityCandidate) × Among platform r c candidates
      × Accepted platform r c
      × (s.provider_id ≡ c.profile.provider_id)
      × (s.profile_id ≡ c.profile.profile_id)
select-Accepted platform r candidates s asked h =
    let ordered = order_candidates candidates in
    let answers = select-Answers platform r candidates asked in
    elim (Option-cases (choice platform r ordered)) [
      | inl nothing ↦
          let (m, failed) = rw nothing at answers in absurd (let k = sym h ∙ failed in cc)
      | inr (t, chosen) ↦
          let (s', returned, provider, profile, _, _) = rw chosen at answers in
          let same : s' ≡ s = let k = sym returned ∙ h in cc in
          let (c, among, passes, e, e') = choice-Stands platform r ordered t chosen in
          (
            c,
            (λ q k. sym (any-sort_by q key_lt candidates) ∙ among q k),
            passes,
            ap (λ x. x.provider_id) (sym same) ∙ provider ∙ e,
            ap (λ x. x.profile_id) (sym same) ∙ profile ∙ e',
          )
    ]
