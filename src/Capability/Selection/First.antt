-- ===== src/Capability/Selection/First.antt =====
-- Which candidate `select` chooses, and what is known of it.
use agf_orchestrator.Base.{
  ℕ, suc, Bool, true, false, not, ◌&&◌, Option, none, some, List, [], ◌∷◌, ◌++◌, map, String, ◌≡◌,
  refl, sym, ap, ◌∙◌, subst, arith, Bool-cases, Option-cases, inl, inr, if◌then◌else◌, length, ltb,
  ◌==◌, find_first,
}
use mathlib.Core.List.{append_assoc, append-nil}
use agf_orchestrator.Base.Raise.{Result, ok, raise, capability_selection_error}
use agf_orchestrator.Capability.Profiles.{Platform}
use agf_orchestrator.Capability.Selection.{
  CapabilityCandidate, SelectionResult, order_candidates, Request, first_of, answered, active_gates,
  required, reason_of, Progress, round, loop, select,
}

abbrev pub is_none : Option String → Bool
is_none none = true
is_none (some reason) = false

module _ (platform : Platform) (r : Request) where
  abbrev pub is_eligible : CapabilityCandidate → Bool
  is_eligible c = is_none (reason_of platform r c)

  abbrev pub chosen_as : Bool → Option CapabilityCandidate → Option (String × String × Bool)
  chosen_as fallback none = none
  chosen_as fallback (some c) = some (c.profile.provider_id, c.profile.profile_id, fallback)

  -- The candidates after the first, which are chosen as a fallback.
  abbrev pub fallback_of : List CapabilityCandidate → Option (String × String × Bool)
  fallback_of cs =
      if (active_gates r).allow_fallback then chosen_as true (find_first is_eligible cs) else none

  -- The choice that `select` is to make from the candidates in their order.
  abbrev pub choice : List CapabilityCandidate → Option (String × String × Bool)
  choice [] = none
  choice (c ∷ cs) = if is_eligible c then chosen_as false (some c) else fallback_of cs

  first_of-none : (a : Option (String × String × Bool)) → first_of a none ≡ a
  first_of-none none = refl
  first_of-none (some a) = refl

  fallback_of_nil : fallback_of [] ≡ none
  fallback_of_nil = elim (Bool-cases (active_gates r).allow_fallback) [
    | inl a ↦ rw a
    | inr n ↦ rw n
  ]

  first_of_again :
      (a : Option (String × String × Bool)) (x : String × String × Bool)
      (b : Option (String × String × Bool))
      → first_of (first_of a (some x)) b ≡ first_of a (some x)
  first_of_again none x b = refl
  first_of_again (some a) x b = refl

  -- What one round does to the choice.
  round_refused :
      (n : ℕ) (c : CapabilityCandidate) (p : Progress) (reason : String)
      → reason_of platform r c ≡ some reason
      → (round platform r n c p).selected ≡ p.selected
  unfolding round
  round_refused n c p reason refused = rw refused

  round_forbidden :
      (n : ℕ) (c : CapabilityCandidate) (p : Progress)
      → reason_of platform r c ≡ none
      → (active_gates r).allow_fallback ≡ false
      → (round platform r (suc n) c p).selected ≡ p.selected
  unfolding round
  round_forbidden n c p eligible forbidden =
      let blocked : (ltb 0 (suc n) && not (active_gates r).allow_fallback) ≡ true = ground arith in
      rw (eligible, blocked)

  round_chosen :
      (n : ℕ) (c : CapabilityCandidate) (p : Progress)
      → reason_of platform r c ≡ none
      → (ltb 0 n && not (active_gates r).allow_fallback) ≡ false
      → (round platform r n c p).selected ≡ first_of p.selected (chosen_as (ltb 0 n) (some c))
  unfolding round
  round_chosen n c p eligible free = elim (Option-cases p.selected) [
    | inl nothing ↦ rw (eligible, free, nothing)
    | inr (a, taken) ↦ rw (eligible, free, taken)
  ]

  loop-selected :
      (n : ℕ) (cs : List CapabilityCandidate) (p : Progress)
      → (loop platform r (suc n) cs p).selected ≡ first_of p.selected (fallback_of cs)
  unfolding loop
  loop-selected n [] p = rw fallback_of_nil (sym (first_of-none p.selected))
  loop-selected n (c ∷ cs) p =
      let q = round platform r (suc n) c p in
      let ih = loop-selected (suc n) cs q in
      elim (Option-cases (reason_of platform r c)) [
        | inr (reason, refused) ↦
            ih
            ∙ ap (λ a. first_of a (fallback_of cs)) (round_refused (suc n) c p reason refused)
            ∙ rw refused
        | inl eligible ↦ elim (Bool-cases (active_gates r).allow_fallback) [
          | inl allowed ↦
              ih
              ∙ ap (λ a. first_of a (fallback_of cs))
                  (round_chosen (suc n) c p eligible (ground arith)
                    ∙ ap (λ b. first_of p.selected (chosen_as b (some c))) (ground arith))
              ∙ first_of_again p.selected (c.profile.provider_id, c.profile.profile_id, true)
                  (fallback_of cs)
              ∙ rw (allowed, eligible)
          | inr forbidden ↦
              ih
              ∙ ap (λ a. first_of a (fallback_of cs)) (round_forbidden n c p eligible forbidden)
              ∙ rw forbidden
        ]
      ]

  loop-choice :
      (cs : List CapabilityCandidate) (p : Progress)
      → p.selected ≡ none
      → (loop platform r 0 cs p).selected ≡ choice cs
  unfolding loop
  loop-choice [] p nothing = nothing
  loop-choice (c ∷ cs) p nothing =
      let q = round platform r 0 c p in
      let rest = loop-selected 0 cs q in
      elim (Option-cases (reason_of platform r c)) [
        | inr (reason, refused) ↦
            rest
            ∙ ap (λ a. first_of a (fallback_of cs)) (round_refused 0 c p reason refused ∙ nothing)
            ∙ rw refused
        | inl eligible ↦
            rest
            ∙ ap (λ a. first_of a (fallback_of cs))
                (round_chosen 0 c p eligible refl
                  ∙ ap (λ a. first_of a (chosen_as false (some c))) nothing)
            ∙ rw eligible
      ]

  round-considered :
      (n : ℕ) (c : CapabilityCandidate) (p : Progress)
      → (round platform r n c p).considered ≡ p.considered ++ c.profile.provider_id ∷ []
  unfolding round
  round-considered n c p = elim (Option-cases (reason_of platform r c)) [
    | inr (reason, refused) ↦ rw refused
    | inl eligible ↦ elim (Bool-cases (ltb 0 n && not (active_gates r).allow_fallback)) [
      | inl forbidden ↦ rw (eligible, forbidden)
      | inr free ↦ rw (eligible, free)
    ]
  ]

  loop-considered :
      (n : ℕ) (cs : List CapabilityCandidate) (p : Progress)
      → (loop platform r n cs p).considered ≡ p.considered ++ map (λ c. c.profile.provider_id) cs
  unfolding loop
  loop-considered n [] p = sym (append-nil p.considered)
  loop-considered n (c ∷ cs) p =
      loop-considered (suc n) cs (round platform r n c p)
      ∙ ap (λ l. l ++ map (λ c. c.profile.provider_id) cs) (round-considered n c p)
      ∙ append_assoc p.considered (c.profile.provider_id ∷ []) (map (λ c. c.profile.provider_id) cs)

-- A result that is the given choice, with the providers that were considered.
abbrev pub Answers : Option (String × String × Bool) → List String → Result SelectionResult → Type 0
Answers none providers result = (m : String) × (result ≡ raise (capability_selection_error m))
Answers (some (provider_id, profile_id, fallback)) providers result =
    (s : SelectionResult) × (result ≡ ok s)
    × (s.provider_id ≡ provider_id)
    × (s.profile_id ≡ profile_id)
    × (s.fallback_used ≡ fallback)
    × (s.considered_candidates ≡ providers)

answered-Answers :
    (o : Option (String × String × Bool)) (p : Progress) → Answers o p.considered (answered o p)
answered-Answers none p = (_, refl)
answered-Answers (some (provider_id, profile_id, fallback)) p = (_, refl, refl, refl, refl, refl)

-- Asked for at least one capability, `select` makes the choice of its description: the first candidate in
-- the order if it is eligible, and else, if a fallback is allowed, the first eligible one, as a fallback;
-- it names all providers in the order as considered, and it raises exactly if there is no such candidate.
pub select-Answers :
    (platform : Platform) (r : Request) (candidates : List CapabilityCandidate)
    → (length (required r) == 0) ≡ false
    → Answers
        (choice platform r (order_candidates candidates))
        (map (λ c. c.profile.provider_id) (order_candidates candidates))
        (select platform r candidates)
unfolding select
select-Answers platform r candidates asked =
    let start : Progress = record { considered = []; rejected = []; selected = none } in
    let ordered = order_candidates candidates in
    let end = loop platform r 0 ordered start in
    let selected = loop-choice platform r ordered start refl in
    let considered = loop-considered platform r 0 ordered start in
    let h : Answers (choice platform r ordered) (map (λ c. c.profile.provider_id) ordered)
        (answered end.selected end) =
      subst (λ o. Answers o (map (λ c. c.profile.provider_id) ordered) (answered end.selected end))
        selected
        (subst (λ l. Answers end.selected l (answered end.selected end)) considered
          (answered-Answers end.selected end)) in
    rw asked h
