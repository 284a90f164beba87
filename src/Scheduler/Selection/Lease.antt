-- ===== src/Scheduler/Selection/Lease.antt =====
-- What a selection leases: one item at a time, within the budget, without ever raising on valid input.
use agf_orchestrator.Base.{
  ◌≡◌, ◌≢◌, refl, ap, sym, subst, ◌∙◌, true, false, not, ◌||◌, List, [], ◌∷◌, none, some, String,
  arith, All, Bool-cases, inl, inr, ◌⊎◌,
}
use agf_orchestrator.Base.Int.{ℤ, pos, ◌+ℤ◌, ◌≤ℤ◌, +ℤ_parts, ltb_ℤ}
use agf_orchestrator.Base.Raise.{ok, require_all-eq-ok, ok-injective}
use agf_orchestrator.Base.Text.{is_identifier}
use agf_orchestrator.Roadmap.Models as Roadmaps
use agf_orchestrator.Roadmap.Models.{Roadmap, RoadmapItem}
use agf_orchestrator.Roadmap.Lifecycle.{eligible_items}
use agf_orchestrator.Roadmap.Eligible.{eligible_of, eligible_of-ids, eligible_items_lem}
use agf_orchestrator.Scheduler.Models.{
  SchedulerStatus, running, SchedulerState, validate, is_none, status_is,
}
use agf_orchestrator.Scheduler.Models.Lifecycle.{IsValid, validate-IsValid, validate_of_IsValid}
use agf_orchestrator.Scheduler.Selection.{
  SelectionStatus, SelectionDecision, selected, blocked, validate_request, request_checks, claim,
  claim_first, select_gated, select_next,
}

-- A request that `_validate_request` accepts.
abbrev IsRequest : String → String → ℤ → Type 0
IsRequest owner expires cost = All (λ c. c.0 ≡ true) (request_checks owner expires cost)

IsRequest-row :
    (owner expires : String) (cost : ℤ)
    → validate_request owner expires cost ≡ ok tt
    → IsRequest owner expires cost
unfolding validate_request
IsRequest-row owner expires cost h = require_all-eq-ok (request_checks owner expires cost) h

-- A claim within the budget is a valid state.
claim-IsValid :
    (s : SchedulerState) (item owner expires : String) (cost : ℤ)
    → IsValid s
    → is_identifier "item-" item ≡ true
    → IsRequest owner expires cost
    → ltb_ℤ s.budget_limit (s.budget_used +ℤ cost) ≡ false
    → IsValid (claim s item owner expires cost)
claim-IsValid s item owner expires cost v known r fits =
    ground (arith, +ℤ_parts s.event_sequence (pos 1), +ℤ_parts s.budget_used cost)

-- The gates that a selection passes: RUNNING, no lease, and budget for the cost.
abbrev IsFree : SchedulerState → ℤ → Type 0
IsFree s cost =
    (s.status ≡ running)
    × (s.current_item_id ≡ none)
    × (s.lease_owner ≡ none)
    × (s.budget_used +ℤ cost ≤ℤ s.budget_limit)

fits :
    (s : SchedulerState) (cost : ℤ)
    → s.budget_used +ℤ cost ≤ℤ s.budget_limit
    → ltb_ℤ s.budget_limit (s.budget_used +ℤ cost) ≡ false
fits s cost h = ground arith

IsFree-row :
    (s : SchedulerState) (cost : ℤ)
    → status_is s.status running ≡ true
    → (not (is_none s.current_item_id) || not (is_none s.lease_owner)) ≡ false
    → ltb_ℤ s.budget_limit (s.budget_used +ℤ cost) ≡ false
    → IsFree s cost
IsFree-row s cost runs free enough = (ground arith, ground arith, ground arith, ground arith)

-- A decision that gives no item.
abbrev pub kept : SelectionStatus → String → SchedulerState → SelectionDecision
kept status reason s = record { status = status; item_id = none; reason = reason; state = s }

-- What the caller learns from a decision: the state is unchanged and no item is given, or the first
-- eligible item is claimed by a state that was free, and the claimed state is valid.
abbrev pub Decides :
    SchedulerState → String → String → ℤ → List RoadmapItem → SelectionDecision → Type 0
Decides s owner expires cost eligible d =
    ((d.status ≢ selected) × (d.item_id ≡ none) × (d.state ≡ s))
    ⊎ ((item : RoadmapItem) × (rest : List RoadmapItem) × (eligible ≡ item ∷ rest)
        × IsFree s cost
        × (d.status ≡ selected)
        × (d.item_id ≡ some item.item_id)
        × (d.state ≡ record s {
          current_item_id = some item.item_id;
          lease_owner = some owner;
          lease_expires_at = some expires;
          budget_used = s.budget_used +ℤ cost;
          event_sequence = s.event_sequence +ℤ pos 1;
        })
        × (validate d.state ≡ ok tt))

abbrev HasIds : List RoadmapItem → Type 0
HasIds items = All (λ (i : RoadmapItem). is_identifier "item-" i.item_id ≡ true) items

claim_first-Decides :
    (s : SchedulerState) (owner expires : String) (cost : ℤ) (eligible : List RoadmapItem)
    → IsValid s
    → IsRequest owner expires cost
    → IsFree s cost
    → HasIds eligible
    → (d : SelectionDecision) × (claim_first s owner expires cost eligible ≡ ok d)
      × Decides s owner expires cost eligible d
unfolding claim_first
claim_first-Decides s owner expires cost [] v r free ids = (_, refl, inl ((λ e. cc), refl, refl))
claim_first-Decides s owner expires cost (item ∷ rest) v r free ids =
    let claimed = claim s item.item_id owner expires cost in
    let valid : validate claimed ≡ ok tt =
      validate_of_IsValid claimed
        (claim-IsValid s item.item_id owner expires cost v ids.0 r (fits s cost free.3)) in
    (
      record {
        status = selected;
        item_id = some item.item_id;
        reason = "eligible item leased";
        state = claimed;
      },
      rw valid,
      inr (item, rest, refl, free, refl, refl, refl, valid),
    )

module _ (roadmap : Roadmap) (s : SchedulerState) (owner expires : String) (cost : ℤ)
    (eligible : List RoadmapItem) (found : eligible_items roadmap ≡ ok eligible)
    (ids : HasIds eligible) (v : IsValid s) (r : IsRequest owner expires cost) where
  select_free :
      IsFree s cost
      → (d : SelectionDecision) × (select_gated roadmap s owner expires cost ≡ ok d)
        × Decides s owner expires cost eligible d
  unfolding select_gated
  select_free free =
      let (d, run, decides) = claim_first-Decides s owner expires cost eligible v r free ids in
      (
        d,
        rw
            (
              ap (λ st. status_is st SchedulerStatus.human_required) free.0,
              ap (λ st. status_is st running) free.0,
              ap (λ o. is_none o) free.1,
              ap (λ o. is_none o) free.2,
              fits s cost free.3,
              found,
            )
            run,
        decides,
      )

  select_gated-Decides :
      (d : SelectionDecision) × (select_gated roadmap s owner expires cost ≡ ok d)
      × Decides s owner expires cost eligible d
  unfolding select_gated
  select_gated-Decides = elim (Bool-cases (status_is s.status SchedulerStatus.human_required)) [
    | inl human ↦ (
      kept SelectionStatus.human_required "human intervention is required" s,
      rw human,
      inl ((λ e. cc), refl, refl),
    )
    | inr no_human ↦ elim (Bool-cases (status_is s.status running)) [
      | inr stopped ↦ (
        kept blocked "scheduler is not RUNNING" s,
        rw (no_human, stopped),
        inl ((λ e. cc), refl, refl),
      )
      | inl runs ↦
          elim (Bool-cases (not (is_none s.current_item_id) || not (is_none s.lease_owner))) [
            | inl leased ↦ (
              kept blocked "an active lease already exists" s,
              rw (no_human, runs, leased),
              inl ((λ e. cc), refl, refl),
            )
            | inr free ↦ elim (Bool-cases (ltb_ℤ s.budget_limit (s.budget_used +ℤ cost))) [
              | inl short ↦ (
                kept blocked "budget is insufficient" s,
                rw (no_human, runs, free, short),
                inl ((λ e. cc), refl, refl),
              )
              | inr enough ↦ select_free (IsFree-row s cost runs free enough)
            ]
          ]
    ]
  ]

-- On a valid roadmap, state and request `select_next` never raises: it gives no item and returns the state
-- as it was, or it leases the first eligible item of a RUNNING scheduler without a lease and with budget
-- for the cost, in a state that differs from the old one only by the lease, its cost and the event number
-- and that is valid.
pub select_next-Decides :
    (roadmap : Roadmap) (s : SchedulerState) (owner expires : String) (cost : ℤ)
    → Roadmaps.validate roadmap ≡ ok tt
    → validate s ≡ ok tt
    → validate_request owner expires cost ≡ ok tt
    → (d : SelectionDecision) × (select_next roadmap s owner expires cost ≡ ok d)
      × Decides s owner expires cost (eligible_of roadmap) d
unfolding select_next
select_next-Decides roadmap s owner expires cost hr hs hq =
    let (d, run, decides) =
      select_gated-Decides roadmap s owner expires cost (eligible_of roadmap)
        (eligible_items_lem roadmap hr) (eligible_of-ids roadmap hr) (validate-IsValid s hs)
        (IsRequest-row owner expires cost hq) in
    (d, rw (hr, hs, hq) run, decides)

blocked_when_leased :
    (roadmap : Roadmap) (s : SchedulerState) (owner expires : String) (cost : ℤ)
    → s.status ≡ running
    → is_none s.lease_owner ≡ false
    → select_gated roadmap s owner expires cost
      ≡ ok (kept blocked "an active lease already exists" s)
unfolding select_gated
blocked_when_leased roadmap s owner expires cost runs leased = ground arith

-- Once `select_next` has leased an item, every further valid selection on the state that it returned is
-- BLOCKED, whatever the roadmap and the request.
pub select_next_exclusive :
    (roadmap : Roadmap) (s : SchedulerState) (owner expires : String) (cost : ℤ)
    (d : SelectionDecision)
    → Roadmaps.validate roadmap ≡ ok tt
    → validate s ≡ ok tt
    → validate_request owner expires cost ≡ ok tt
    → select_next roadmap s owner expires cost ≡ ok d
    → d.status ≡ selected
    → (roadmap' : Roadmap) (owner' expires' : String) (cost' : ℤ)
    → Roadmaps.validate roadmap' ≡ ok tt
    → validate_request owner' expires' cost' ≡ ok tt
    → select_next roadmap' d.state owner' expires' cost'
      ≡ ok (kept blocked "an active lease already exists" d.state)
unfolding select_next
select_next_exclusive roadmap s owner expires cost d hr hs hq run sel roadmap' owner' expires' cost'
      hr' hq' =
    let (e, run', decides) = select_next-Decides roadmap s owner expires cost hr hs hq in
    let same : e ≡ d = ok-injective e d (sym run' ∙ run) in
    leased (subst (Decides s owner expires cost (eligible_of roadmap)) same decides)
  where
    leased :
        Decides s owner expires cost (eligible_of roadmap) d
        → select_next roadmap' d.state owner' expires' cost'
          ≡ ok (kept blocked "an active lease already exists" d.state)
    leased (inl (ne, _, _)) = absurd (ne sel)
    leased (inr (item, rest, _, free, _, _, claimed, valid)) =
        let runs : d.state.status ≡ running =
          ap (λ (t : SchedulerState). t.status) claimed ∙ free.0 in
        let owned : is_none d.state.lease_owner ≡ false =
          ap (λ (t : SchedulerState). is_none t.lease_owner) claimed in
        rw (hr', valid, hq') (blocked_when_leased roadmap' d.state owner' expires' cost' runs owned)
