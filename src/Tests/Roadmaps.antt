-- ===== src/Tests/Roadmaps.antt =====
-- Roadmaps (src/agf_orchestrator/roadmap_models.py) on concrete inputs.
use agf_orchestrator.Base.{
  ◌≡◌, ◌≢◌, refl, ◌↔◌, true, false, none, some, List, [], ◌∷◌, String, arith, keep,
}
use agf_orchestrator.Base.Int.{pos}
use agf_orchestrator.Base.Raise.{ok, raise, roadmap_validation_error}
use agf_orchestrator.Base.Sort.{sort_by}
use agf_orchestrator.Base.Text.{
  is_identifier, has_text, len_le, str_lt, str_mem, is_space, str_eq_iff,
}
use agf_orchestrator.Roadmap.Acyclic.{Edges, keys, validate_acyclic}
use agf_orchestrator.Roadmap.Acyclic.Complete.{IsClosed, Below, IsAcyclic, validate_acyclic_iff}
use agf_orchestrator.Roadmap.Change.{with_item}
use agf_orchestrator.Roadmap.Transition.{replaced, MayComplete}
use agf_orchestrator.Roadmap.Transition.Exact.{IsUpdate, transition_iff, supersede_iff}
use agf_orchestrator.Roadmap.Settled.{IsSettled}
use agf_orchestrator.Roadmap.Reach.{Step, Reach, Reach-keeps}
use agf_orchestrator.Roadmap.Eligible.{is_eligible, goes_first, eligible_items_lem}
use agf_orchestrator.Roadmap.Models.{
  item_transitions, item_status_is, RoadmapStatus, RoadmapItemStatus, RoadmapItem, Roadmap,
  validate_item, validate_items, validate,
}
use agf_orchestrator.Roadmap.Lifecycle.{
  get_item, may_complete, replace_item, transition, supersede, eligible_items, all_completed,
  eligible_from,
}

abbrev pub item : String → List String → RoadmapItemStatus → RoadmapItem
item x ds status = record {
  item_id = x;
  title = "an item";
  objective_refs = "requirement-1" ∷ [];
  depends_on = ds;
  acceptance_criteria = "it works" ∷ [];
  risk_level = "LOW";
  status = status;
  superseded_by = none;
  priority = pos 10;
}

abbrev pub plan : RoadmapItemStatus → RoadmapItemStatus → Roadmap
plan a b = record {
  schema_version = "1.0";
  roadmap_id = "roadmap-1";
  version = "3";
  objective_id = "objective-1";
  items = item "item-b" ("item-a" ∷ []) b ∷ item "item-a" [] a ∷ [];
  status = RoadmapStatus.active;
}

abbrev started : Roadmap
started = plan RoadmapItemStatus.in_progress RoadmapItemStatus.ready

started_valid : validate started ≡ ok tt
unfolding validate validate_items validate_item validate_acyclic is_identifier has_text len_le
    str_lt is_space
started_valid = refl

abbrev pub done : Roadmap
done = plan RoadmapItemStatus.completed RoadmapItemStatus.ready

abbrev replaced_plan : Roadmap
replaced_plan =
    with_item done (replaced (item "item-b" ("item-a" ∷ []) RoadmapItemStatus.ready) "item-a")

pub done_valid : validate done ≡ ok tt
unfolding validate validate_items validate_item validate_acyclic is_identifier has_text len_le
    str_lt is_space
done_valid = refl

move_run : transition started "item-a" RoadmapItemStatus.completed ≡ ok done
unfolding transition get_item may_complete replace_item all_completed validate validate_items
    validate_item validate_acyclic is_identifier has_text len_le str_lt is_space
move_run = refl

replace_run : supersede done "item-b" "item-a" ≡ ok replaced_plan
unfolding supersede get_item replace_item validate validate_items validate_item validate_acyclic
    is_identifier has_text len_le str_lt is_space
replace_run = refl

-- A dependency that is not COMPLETED keeps an item from completion.
too_early :
    transition
      (plan RoadmapItemStatus.ready RoadmapItemStatus.in_progress)
      "item-b"
      RoadmapItemStatus.completed
    ≡ raise (roadmap_validation_error "item cannot complete before dependencies")
unfolding transition get_item may_complete all_completed
too_early = refl

eligible_run : eligible_items done ≡ ok (item "item-b" ("item-a" ∷ []) RoadmapItemStatus.ready ∷ [])
unfolding eligible_items all_completed eligible_from str_lt
eligible_run = refl

abbrev cycle : Edges
cycle = ("a", "b" ∷ []) ∷ ("b", "a" ∷ []) ∷ []

cycle_refused :
    validate_acyclic cycle ≡ raise (roadmap_validation_error "roadmap dependencies contain a cycle")
unfolding validate_acyclic str_lt
cycle_refused = refl

cycle-IsClosed : IsClosed cycle
cycle-IsClosed x d dep =
    ground (arith, str_eq_iff x "a", str_eq_iff x "b", str_eq_iff d "b", str_eq_iff d "a")

validate_acyclic_iff_example :
    ((validate_acyclic cycle ≡ ok tt) ↔ IsAcyclic cycle)
    × ((validate_acyclic cycle
          ≡ raise (roadmap_validation_error "roadmap dependencies contain a cycle"))
        ↔ ((x : String) × (str_mem x (keys cycle) ≡ true) × Below cycle x x))
validate_acyclic_iff_example = validate_acyclic_iff cycle cycle-IsClosed

started-IsSettled : IsSettled started
started-IsSettled = ((λ c. cc), ((λ c. cc), tt))

Reach-keeps_example : (validate replaced_plan ≡ ok tt) × IsSettled replaced_plan
Reach-keeps_example =
    Reach-keeps
      (Reach.next (Reach.next Reach.here (Step.move "item-a" RoadmapItemStatus.completed move_run))
        (Step.replace "item-b" "item-a" replace_run))
      started_valid started-IsSettled

transition_iff_example : (transition started "item-a" RoadmapItemStatus.completed ≡ ok done) ↔ (
    (i : RoadmapItem) × (get_item started "item-a" ≡ ok i)
    × (item_transitions i.status RoadmapItemStatus.completed ≡ true)
    × MayComplete started i RoadmapItemStatus.completed
    × IsUpdate "item-a" (record i { status = RoadmapItemStatus.completed }) started done)
transition_iff_example =
    transition_iff started done "item-a" RoadmapItemStatus.completed started_valid

supersede_iff_example : (supersede done "item-b" "item-a" ≡ ok replaced_plan) ↔ (
    (i : RoadmapItem) × (replacement : RoadmapItem) × (◌≢◌ {A = String} "item-b" "item-a")
    × (get_item done "item-b" ≡ ok i)
    × (get_item done "item-a" ≡ ok replacement)
    × (item_status_is i.status RoadmapItemStatus.superseded ≡ false)
    × IsUpdate "item-b"
        (record i { status = RoadmapItemStatus.superseded; superseded_by = some "item-a" })
        done
        replaced_plan)
supersede_iff_example = supersede_iff done replaced_plan "item-b" "item-a" done_valid

eligible_items_lem_example :
    eligible_items done ≡ ok (sort_by goes_first (keep (is_eligible done.items) done.items))
eligible_items_lem_example = eligible_items_lem done done_valid
