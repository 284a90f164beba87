-- ===== src/Campaign/Deferred/Step.antt =====
-- What a deferred retry that is read says: its two states are one step apart.
use agf_orchestrator.Base.{
  ◌≡◌, sym, subst, leb, some, arith, Option-cases, Bool-cases, inl, inr, String, Bool, true, false,
  not, ◌&&◌, ◌||◌,
}
use agf_orchestrator.Base.Raise.{Result, ok, raise, >>=-eq-ok, raise_if, ok-injective}
use agf_orchestrator.Base.Text.{str_eq}
use agf_orchestrator.Campaign.Models.{
  CampaignState, Calendar, StoreKey, validate, validate_identity, is_terminal, parse_timestamp,
}
use agf_orchestrator.Campaign.World.{
  Sidecar, missing, broken, payload, campaign, state_eq, state_eq_iff,
}
use agf_orchestrator.Campaign.Deferred.{
  Digest, conflict, both_steps, recorded, is_present, legacy_candidate, read_deferred,
  deferred_steps, check_step, check_next, expected, event_time, parse_given, is_exhausted,
  same_steps,
}

-- The second state is the retry of the first that the deferral was for.
abbrev pub IsRetryOf : CampaignState → CampaignState → Type 0
IsRetryOf before after =
    (reason : String) × (event_timestamp : String) × (after
      ≡ expected before after reason event_timestamp)
    × (is_terminal before.status ≡ false)

abbrev pub Steps : CampaignState × CampaignState → Type 0
Steps p = IsRetryOf p.0 p.1

module _ (calendar : Calendar) where
  check_next-eq-ok :
      (before after : CampaignState) (p : CampaignState × CampaignState)
      → check_next calendar before after ≡ ok p
      → p ≡ (before, after)
  check_next-eq-ok before after p h = elim (Bool-cases (is_exhausted before)) [
    | inl spent ↦ ground (arith, h)
    | inr within ↦
        let h' = rw within at h in
        let (next, _, h₁) = >>=-eq-ok (parse_given calendar after.next_check_at) _ h' in
        let (updated, _, h₂) = >>=-eq-ok (parse_timestamp calendar after.updated_at) _ h₁ in
        elim (Bool-cases (leb next updated)) [
          | inl early ↦ absurd (let k = rw early at h₂ in cc)
          | inr late ↦ let k = rw late at h₂ in cc
        ]
  ]

  check_step-eq-ok :
      (legacy : Bool) (before after : CampaignState) (p : CampaignState × CampaignState)
      → check_step calendar legacy before after ≡ ok p
      → Steps p
  unfolding check_step
  check_step-eq-ok legacy before after p h =
      let (ts, _, h₁) = >>=-eq-ok (event_time calendar legacy after) _ h in
      elim (Option-cases after.reason) [
        | inl no_reason ↦ absurd (let k = rw no_reason at h₁ in cc)
        | inr (reason, given) ↦
            let h₂ = rw given at h₁ in
            elim (Bool-cases (
              is_terminal before.status
              || not (state_eq after (expected before after reason ts)))) [
                | inl bad ↦ absurd (let k = rw bad at h₂ in cc)
                | inr good ↦
                    let e = check_next-eq-ok before after p (rw good at h₂) in
                    subst Steps (sym e) (
                      reason,
                      ts,
                      (state_eq_iff after (expected before after reason ts)).0 (ground arith),
                      ground arith,
                    )
              ]
      ]

  read_deferred-eq-ok :
      (key : StoreKey) (digest : Digest) (legacy : Bool) (c : Sidecar)
      (p : CampaignState × CampaignState)
      → read_deferred calendar key digest legacy c ≡ ok p
      → Steps p
  unfolding read_deferred
  read_deferred-eq-ok key digest legacy missing p h = absurd (cc)
  read_deferred-eq-ok key digest legacy broken p h = absurd (cc)
  read_deferred-eq-ok key digest legacy (campaign s) p h = absurd (cc)
  read_deferred-eq-ok key digest legacy (payload d) p h =
      let (_, _, h₁) =
        >>=-eq-ok
          (raise_if
            (not (str_eq d.schema_version "1.0")
              || not (str_eq d.sha256 (digest d.schema_version d.before d.after)))
            _)
          _ h in
      let (_, _, h₂) = >>=-eq-ok (validate calendar d.before) _ h₁ in
      let (_, _, h₃) = >>=-eq-ok (validate calendar d.after) _ h₂ in
      let (_, _, h₄) = >>=-eq-ok (validate_identity calendar key d.before) _ h₃ in
      let (_, _, h₅) = >>=-eq-ok (validate_identity calendar key d.after) _ h₄ in
      check_step-eq-ok legacy d.before d.after p h₅

  both_steps-eq-ok :
      (key : StoreKey) (digest : Digest) (c l : Sidecar) (p : CampaignState × CampaignState)
      → both_steps calendar key digest c l ≡ ok p
      → Steps p
  unfolding both_steps
  both_steps-eq-ok key digest c l p h =
      let (steps, first, h₁) = >>=-eq-ok (read_deferred calendar key digest false c) _ h in
      let (others, _, h₂) = >>=-eq-ok (read_deferred calendar key digest true l) _ h₁ in
      let (_, _, e) = >>=-eq-ok (raise_if (not (same_steps others steps)) conflict) _ h₂ in
      subst Steps (ok-injective steps p e) (read_deferred-eq-ok key digest false c steps first)

  recorded-eq-ok :
      (r : Result (CampaignState × CampaignState)) (p : CampaignState × CampaignState)
      → recorded r ≡ ok (some p)
      → r ≡ ok p
  recorded-eq-ok (ok q) p h = cc
  recorded-eq-ok (raise e) p h = cc

  -- What the recovery reads is one step, or nothing.
  pub deferred_steps-eq-ok :
      (key : StoreKey) (digest : Digest) (c l : Sidecar) (p : CampaignState × CampaignState)
      → deferred_steps calendar key digest c l ≡ ok (some p)
      → Steps p
  unfolding deferred_steps
  deferred_steps-eq-ok key digest c l p h =
      elim (Bool-cases (is_present c && legacy_candidate calendar key l)) [
        | inl both ↦
            both_steps-eq-ok key digest c l p
              (recorded-eq-ok (both_steps calendar key digest c l) p (rw both at h))
        | inr not_both ↦ elim (Bool-cases (is_present c)) [
          | inl new ↦ read_deferred-eq-ok key digest false c p (
              recorded-eq-ok (read_deferred calendar key digest false c) p
                (rw (not_both, new) at h))
          | inr no_new ↦ elim (Bool-cases (legacy_candidate calendar key l)) [
            | inl old ↦ read_deferred-eq-ok key digest true l p (
                recorded-eq-ok (read_deferred calendar key digest true l) p
                  (rw (not_both, no_new, old) at h))
            | inr neither ↦ let k = rw (not_both, no_new, neither) at h in absurd (cc)
          ]
        ]
      ]
