-- ===== src/Capability/Selection/Passed.antt =====
-- What a selected candidate has passed, field by field.
use agf_orchestrator.Base.{
  ℕ, ◌<◌, Bool, true, false, not, Option, none, some, List, [], ◌∷◌, String, ◌≡◌, ◌≢◌, ◌⊎◌, refl,
  sym, ap, ◌∙◌, subst, arith, Bool-cases, Option-cases, inl, inr, any, All, keep, length, ◌==◌,
}
use agf_orchestrator.Base.Order.{set_of, sorted_set}
use agf_orchestrator.Base.Raise.{ok, >>=-eq-ok, raise_if}
use agf_orchestrator.Base.Sort.{any-sort_by}
use agf_orchestrator.Base.Text.{str_eq, str_eq_iff, str_lt, str_mem, is_timestamp}
use agf_orchestrator.Capability.Profiles.{
  Platform, CapabilityProfile, CapabilityObservation, CapabilityStatus, supported, is_supported,
  supported_value, validate, validate_at, is_stale, expired, timestamp, instant_of,
  require_supported,
}
use agf_orchestrator.Capability.Selection.{
  SelectionGates, gate_list, CapabilityCandidate, SelectionResult, Request, active_gates, required,
  select,
}
use agf_orchestrator.Capability.Selection.Eligible.{Among, Accepted, select-Accepted}

-- An observation of a list: whatever test it passes, one of the list passes.
abbrev pub Listed : CapabilityObservation → List CapabilityObservation → Type 0
Listed o os = (q : CapabilityObservation → Bool) → q o ≡ true → any q os ≡ true

-- The profile has the capability as supported, with a value.
abbrev pub Supports : CapabilityProfile → String → Type 0
Supports p name =
    (o : CapabilityObservation) × (v : String) × Listed o p.capabilities
    × (o.name ≡ name)
    × (o.status ≡ supported)
    × (o.value ≡ some v)

-- The profile does not expire, or only after the time.
abbrev pub IsCurrent : Platform → CapabilityProfile → String → Type 0
IsCurrent platform p now =
    (p.expires_at ≡ none)
    ⊎ ((text : String) × (end : ℕ) × (at : ℕ) × (p.expires_at ≡ some text)
        × (platform.instant text ≡ some end)
        × (platform.instant now ≡ some at)
        × (at < end))

pub record AllPassed (g : SelectionGates) : Type 0 where
  pub policy : g.policy_eligible ≡ some true
  pub privacy : g.privacy_eligible ≡ some true
  pub independence : g.independence_eligible ≡ some true
  pub budget : g.budget_eligible ≡ some true
  pub health : g.health_eligible ≡ some true
  pub empirical_evidence : g.empirical_evidence_eligible ≡ some true

pub record Passes (platform : Platform) (r : Request) (c : CapabilityCandidate) : Type 0 where
  pub valid : validate platform c.profile ≡ ok tt
  pub current : IsCurrent platform c.profile r.now
  pub bound : c.profile.project_id ≡ r.project_id
  pub general : c.diagnostic_only ≡ false
  pub other_than_qwen : c.profile.provider_id ≢ "provider-qwen"
  pub other_than_model : c.profile.provider_id ≢ "qwen3.5:9b-q4_K_M"
  pub gates : SelectionGates
  pub given_gates : r.gates ≡ some gates
  pub passed : AllPassed gates
  pub supports :
      (name : String) → str_mem name r.required_capabilities ≡ true → Supports c.profile name

str_mem-set_of :
    (x : String) (xs : List String) → str_mem x xs ≡ true → str_mem x (set_of xs) ≡ true
str_mem-set_of x [] h = cc
str_mem-set_of x (y ∷ ys) h = elim (Bool-cases (str_eq x y)) [
  | inl same ↦
      let e : x ≡ y = (str_eq_iff x y).0 same in
      elim (Bool-cases (str_mem y ys)) [
        | inl again ↦ rw again (str_mem-set_of x ys (rw (← e) at again))
        | inr once ↦ rw (once, same)
      ]
  | inr other ↦
      let m = str_mem-set_of x ys (rw other at h) in
      elim (Bool-cases (str_mem y ys)) [ inl again ↦ rw again m | inr once ↦ rw (once, other) m ]
]

str_mem-sorted_set :
    (x : String) (xs : List String) → str_mem x xs ≡ true → str_mem x (sorted_set xs) ≡ true
unfolding sorted_set
str_mem-sorted_set x xs h = any-sort_by (str_eq x) str_lt (set_of xs) ∙ str_mem-set_of x xs h

All-str_mem :
    (P : String → Type 0) (xs : List String) → All P xs → (x : String) → str_mem x xs ≡ true → P x
All-str_mem P [] h x m = absurd (cc)
All-str_mem P (y ∷ ys) h x m = elim (Bool-cases (str_eq x y)) [
  | inl same ↦ subst P (sym ((str_eq_iff x y).0 same)) h.0
  | inr other ↦ All-str_mem P ys h.1 x (rw other at m)
]

supported_value-eq-ok :
    (quoted : String) (os : List CapabilityObservation) (v : String)
    → supported_value quoted os ≡ ok v
    → (o : CapabilityObservation) × (os ≡ o ∷ []) × (o.status ≡ supported) × (o.value ≡ some v)
supported_value-eq-ok quoted [] v h = absurd (cc)
supported_value-eq-ok quoted (o ∷ u ∷ os) v h = absurd (cc)
supported_value-eq-ok quoted (o ∷ []) v h = elim (Bool-cases (is_supported o.status)) [
  | inr lacks ↦ absurd (let k = rw lacks at h in cc)
  | inl yes_supported ↦ elim (Option-cases o.value) [
    | inl nothing ↦ absurd (let k = rw (yes_supported, nothing) at h in cc)
    | inr (w, has) ↦
        let k = rw (yes_supported, has) at h in
        (o, refl, status_of o.status yes_supported, has ∙ (let e : w ≡ v = cc in ap some e))
  ]
]
  where
    status_of : (st : CapabilityStatus) → is_supported st ≡ true → st ≡ supported
    status_of st e = ground arith

keep-one :
    (name : String) (os : List CapabilityObservation) (o : CapabilityObservation)
    → keep (λ c. str_eq c.name name) os ≡ o ∷ []
    → Listed o os × (o.name ≡ name)
keep-one name [] o h = absurd (cc)
keep-one name (u ∷ os) o h = elim (Bool-cases (str_eq u.name name)) [
  | inl here ↦
      let e : u ≡ o = let k = rw here at h in cc in
      (
        (λ q k. rw e (rw k)),
        ap (λ (x : CapabilityObservation). x.name) (sym e) ∙ (str_eq_iff u.name name).0 here,
      )
  | inr there ↦
      let (listed, named) = keep-one name os o (rw there at h) in
      ((λ q k. let m = listed q k in ground arith), named)
]

require_supported-Supports :
    (platform : Platform) (p : CapabilityProfile) (name v : String)
    → require_supported platform p name ≡ ok v
    → Supports p name
require_supported-Supports platform p name v h =
    let (o, only, is, has) =
      supported_value-eq-ok (platform.repr name) (keep (λ c. str_eq c.name name) p.capabilities) v
        h in
    let (listed, named) = keep-one name p.capabilities o only in (o, v, listed, named, is, has)

instant_of-eq-ok : (o : Option ℕ) (t : ℕ) → instant_of o ≡ ok t → o ≡ some t
instant_of-eq-ok none t h = absurd (cc)
instant_of-eq-ok (some u) t h = cc

expired-IsCurrent :
    (platform : Platform) (p : CapabilityProfile) (now : String) (at : ℕ)
    → platform.instant now ≡ some at
    → expired platform at p.expires_at ≡ ok false
    → IsCurrent platform p now
expired-IsCurrent platform p now at observed h = elim (Option-cases p.expires_at) [
  | inl never ↦ inl never
  | inr (text, expires) ↦
      let (end, read, e) = >>=-eq-ok (timestamp platform text) _ (rw expires at h) in
      inr (
        text,
        end,
        at,
        expires,
        instant_of-eq-ok (platform.instant text) end read,
        observed,
        ground arith,
      )
]

validate_at-IsCurrent :
    (platform : Platform) (p : CapabilityProfile) (now : String)
    → validate_at platform p now ≡ ok tt
    → IsCurrent platform p now
unfolding validate_at
validate_at-IsCurrent platform p now h =
    let (_, _, h₁) = >>=-eq-ok (validate platform p) _ h in
    let (stale, read, h₂) = >>=-eq-ok (is_stale platform p now) _ h₁ in
    elim (Bool-cases stale) [
      | inl old ↦ absurd (let k = rw old at h₂ in cc)
      | inr fresh ↦
          let (_, _, h₃) = >>=-eq-ok (raise_if (not (is_timestamp now)) _) _ (rw fresh at read) in
          let (at, seen, e) = >>=-eq-ok (timestamp platform now) _ h₃ in
          expired-IsCurrent platform p now at (instant_of-eq-ok (platform.instant now) at seen) e
    ]

gates-AllPassed :
    (r : Request)
    → All (λ g. g.1 ≡ some true) (gate_list (active_gates r))
    → (g : SelectionGates) × (r.gates ≡ some g) × AllPassed g
gates-AllPassed r h = elim (Option-cases r.gates) [
  | inl nothing ↦ absurd (let k = (rw nothing at h).0 in cc)
  | inr (g, is) ↦
      let (a, (b, (c, (d, (e, (f, _)))))) = rw is at h in
      (
        g,
        is,
        record {
          policy = a;
          privacy = b;
          independence = c;
          budget = d;
          health = e;
          empirical_evidence = f;
        },
      )
]

Accepted-Passes :
    (platform : Platform) (r : Request) (c : CapabilityCandidate)
    → Accepted platform r c
    → Passes platform r c
Accepted-Passes platform r c (valid, current, bound, usable, gates, accepts) =
    let (g, is, passed) = gates-AllPassed r gates in
    record {
      valid = valid;
      current = validate_at-IsCurrent platform c.profile r.now current;
      bound = bound;
      general = ground (arith, usable);
      other_than_qwen =
          λ e. ground (arith, usable, (str_eq_iff c.profile.provider_id "provider-qwen").1 e);
      other_than_model =
          λ e. ground (arith, usable, (str_eq_iff c.profile.provider_id "qwen3.5:9b-q4_K_M").1 e);
      gates = g;
      given_gates = is;
      passed = passed;
      supports = λ name asked.
          let (v, has) =
            All-str_mem (λ n. (v : String) × (require_supported platform c.profile n ≡ ok v))
              (required r) accepts name (str_mem-sorted_set name r.required_capabilities asked) in
          require_supported-Supports platform c.profile name v has;
    }

-- If `select` returns a result, a candidate among the given ones has its provider and profile. That
-- candidate's profile is valid, has not expired at the time of the request and is bound to its project;
-- the profile is not diagnostic only; the gates of the candidate state that policy, privacy, independence,
-- budget, health and empirical evidence have passed; and the profile has each required capability with a
-- value that is supported.
pub select-Passes :
    (platform : Platform) (r : Request) (candidates : List CapabilityCandidate)
    (s : SelectionResult)
    → select platform r candidates ≡ ok s
    → (c : CapabilityCandidate) × Among platform r c candidates
      × Passes platform r c
      × (s.provider_id ≡ c.profile.provider_id)
      × (s.profile_id ≡ c.profile.profile_id)
unfolding select
select-Passes platform r candidates s h = elim (Bool-cases (length (required r) == 0)) [
  | inl empty ↦ absurd (let k = rw empty at h in cc)
  | inr asked ↦
      let (c, among, accepted, e, e') = select-Accepted platform r candidates s asked h in
      (c, among, Accepted-Passes platform r c accepted, e, e')
]
