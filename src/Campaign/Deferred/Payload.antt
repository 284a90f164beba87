-- ===== src/Campaign/Deferred/Payload.antt =====
-- The payload that a deferral writes is read back as the step that it was written for.
use agf_orchestrator.Base.{
  ℕ, ◌+◌, ◌≡◌, refl, subst, arith, Bool-cases, inl, inr, String, true, false, ltb, leb,
}
use agf_orchestrator.Base.Raise.{ok, >>=-eq-ok, ok-injective}
use agf_orchestrator.Base.Text.{str_eq, str_eq_refl, str_eq_iff}
use agf_orchestrator.Campaign.Models.{
  CampaignState, Calendar, StoreKey, validate, validate_identity, is_terminal,
}
use agf_orchestrator.Campaign.World.{Deferred, payload, state_eq_iff}
use agf_orchestrator.Campaign.Deferred.{Digest, read_deferred, check_step, expected, is_exhausted}
use agf_orchestrator.Campaign.Steps.{
  Runner, retried, exhausted, backed_off, backoff_delay, bounds_are_valid,
}
use agf_orchestrator.Campaign.Steps.Valid.{backoff_delay_bounds}

-- The payload of `_defer_retry`.
abbrev pub payload_of : Digest → CampaignState → CampaignState → Deferred
payload_of digest before after = record {
  schema_version = "1.0";
  before = before;
  after = after;
  sha256 = digest "1.0" before after;
}

check_step-exhausted :
    (calendar : Calendar) (at : ℕ) (s : CampaignState) (reason : String)
    → is_terminal s.status ≡ false
    → ltb s.retry_budget (s.retry_count + 1) ≡ true
    → check_step calendar false s (exhausted calendar at s reason)
      ≡ ok (s, exhausted calendar at s reason)
unfolding check_step
check_step-exhausted calendar at s reason live spent =
    let after = exhausted calendar at s reason in
    let over : is_exhausted s ≡ true = ground arith in
    let same : after ≡ expected s after reason (calendar.print at) = ground arith in
    rw (live, (state_eq_iff after (expected s after reason (calendar.print at))).1 same, over)

check_step-backed_off :
    (calendar : Calendar) (r : Runner) (at : ℕ) (s : CampaignState) (reason : String)
    → is_terminal s.status ≡ false
    → ltb s.retry_budget (s.retry_count + 1) ≡ false
    → bounds_are_valid r ≡ true
    → let after = backed_off calendar at (at + backoff_delay r (s.retry_count + 1)) s reason in
      check_step calendar false s after ≡ ok (s, after)
unfolding check_step
check_step-backed_off calendar r at s reason live within bounds =
    let next = at + backoff_delay r (s.retry_count + 1) in
    let after = backed_off calendar at next s reason in
    let over : is_exhausted s ≡ false = ground arith in
    let same : after ≡ expected s after reason (calendar.print at) = ground arith in
    let late : leb next at ≡ false =
      ground (arith, backoff_delay_bounds r (s.retry_count + 1) bounds) in
    rw (
      live,
      (state_eq_iff after (expected s after reason (calendar.print at))).1 same,
      over,
      calendar.parse-print next,
      calendar.parse-print at,
      late,
    )

module _ (calendar : Calendar) (r : Runner) (at : ℕ) (s a : CampaignState) (reason : String)
    (steps : retried calendar r at s reason ≡ ok a) where
  pub retried_cases :
      (P : CampaignState → Type 0)
      → (ltb s.retry_budget (s.retry_count + 1) ≡ true → P (exhausted calendar at s reason))
      → (ltb s.retry_budget (s.retry_count + 1) ≡ false
          → P (backed_off calendar at (at + backoff_delay r (s.retry_count + 1)) s reason))
      → P a
  unfolding retried
  retried_cases P spent within = elim (Bool-cases (ltb s.retry_budget (s.retry_count + 1))) [
    | inl yes_spent ↦
        subst P (ok-injective (exhausted calendar at s reason) a (rw yes_spent at steps))
          (spent yes_spent)
    | inr no_spent ↦
        subst P
          (ok-injective (backed_off calendar at (at + backoff_delay r (s.retry_count + 1)) s reason)
            a (rw (no_spent, calendar.parse-print at) at steps))
          (within no_spent)
  ]

  pub retried-same_ids : (a.project_id ≡ s.project_id) × (a.campaign_id ≡ s.campaign_id)
  retried-same_ids =
      retried_cases (λ x. (x.project_id ≡ s.project_id) × (x.campaign_id ≡ s.campaign_id))
        (λ _. (refl, refl)) (λ _. (refl, refl))

  pub retried-check_step :
      is_terminal s.status ≡ false
      → bounds_are_valid r ≡ true
      → check_step calendar false s a ≡ ok (s, a)
  retried-check_step live bounds =
      retried_cases (λ x. check_step calendar false s x ≡ ok (s, x))
        (check_step-exhausted calendar at s reason live)
        (λ within. check_step-backed_off calendar r at s reason live within bounds)

pub validate_identity_parts :
    (calendar : Calendar) (key : StoreKey) (s : CampaignState)
    → validate_identity calendar key s ≡ ok tt
    → (validate calendar s ≡ ok tt)
      × (s.project_id ≡ key.project_id)
      × (s.campaign_id ≡ key.campaign_id)
unfolding validate_identity
validate_identity_parts calendar key s h =
    let (_, valid, k) = >>=-eq-ok (validate calendar s) _ h in
    (
      valid,
      elim (Bool-cases (str_eq s.project_id key.project_id)) [
        | inl same ↦ (str_eq_iff s.project_id key.project_id).0 same
        | inr other ↦ absurd (let k' = rw other at k in cc)
      ],
      elim (Bool-cases (str_eq s.campaign_id key.campaign_id)) [
        | inl same ↦ (str_eq_iff s.campaign_id key.campaign_id).0 same
        | inr other ↦ elim (Bool-cases (str_eq s.project_id key.project_id)) [
          | inl same ↦ absurd (let k' = rw (same, other) at k in cc)
          | inr differs ↦ absurd (let k' = rw differs at k in cc)
        ]
      ],
    )

pub validate_identity_of :
    (calendar : Calendar) (key : StoreKey) (s : CampaignState)
    → validate calendar s ≡ ok tt
    → s.project_id ≡ key.project_id
    → s.campaign_id ≡ key.campaign_id
    → validate_identity calendar key s ≡ ok tt
unfolding validate_identity
validate_identity_of calendar key s valid p c = rw (
  valid,
  (str_eq_iff s.project_id key.project_id).1 p,
  (str_eq_iff s.campaign_id key.campaign_id).1 c,
)

pub read_deferred-payload :
    (calendar : Calendar) (key : StoreKey) (digest : Digest) (before after : CampaignState)
    → validate_identity calendar key before ≡ ok tt
    → validate_identity calendar key after ≡ ok tt
    → check_step calendar false before after ≡ ok (before, after)
    → read_deferred calendar key digest false (payload (payload_of digest before after))
      ≡ ok (before, after)
unfolding read_deferred
read_deferred-payload calendar key digest before after hb ha step =
    rw
      (
        str_eq_refl (digest "1.0" before after),
        (validate_identity_parts calendar key before hb).0,
        (validate_identity_parts calendar key after ha).0,
        hb,
        ha,
      )
      step
