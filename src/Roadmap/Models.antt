-- ===== src/Roadmap/Models.antt =====
-- `RoadmapItem`, `Roadmap` and their validation. The fields have the types that the source annotates;
-- its `isinstance` checks are those types.
use Prim.Native.String.{◌++◌}
use agf_orchestrator.Base.{
  Bool, true, false, not, ◌&&◌, ◌||◌, Option, none, some, List, [], ◌∷◌, String, leb, length, all,
}
use agf_orchestrator.Base.Int.{ℤ, pos, leb_ℤ}
use agf_orchestrator.Base.Raise.{
  Error, Result, ok, roadmap_validation_error, require_all, raise_if, ◌>>◌,
}
use agf_orchestrator.Base.Text.{str_eq, str_distinct, str_subset, is_identifier, has_text, len_le}
use agf_orchestrator.Roadmap.Acyclic.{Edges, validate_acyclic}

pub data RoadmapStatus : Type 0 where
  draft active superseded : RoadmapStatus

pub data RoadmapItemStatus : Type 0 where
  todo ready in_progress blocked completed superseded : RoadmapItemStatus

abbrev pub item_status_value : RoadmapItemStatus → String
item_status_value RoadmapItemStatus.todo = "TODO"
item_status_value RoadmapItemStatus.ready = "READY"
item_status_value RoadmapItemStatus.in_progress = "IN_PROGRESS"
item_status_value RoadmapItemStatus.blocked = "BLOCKED"
item_status_value RoadmapItemStatus.completed = "COMPLETED"
item_status_value RoadmapItemStatus.superseded = "SUPERSEDED"

-- `a is b`
abbrev pub item_status_is : RoadmapItemStatus → RoadmapItemStatus → Bool
item_status_is RoadmapItemStatus.todo RoadmapItemStatus.todo = true
item_status_is RoadmapItemStatus.ready RoadmapItemStatus.ready = true
item_status_is RoadmapItemStatus.in_progress RoadmapItemStatus.in_progress = true
item_status_is RoadmapItemStatus.blocked RoadmapItemStatus.blocked = true
item_status_is RoadmapItemStatus.completed RoadmapItemStatus.completed = true
item_status_is RoadmapItemStatus.superseded RoadmapItemStatus.superseded = true
item_status_is _ _ = false

pub record RoadmapItem : Type 0 where
  pub item_id : String
  pub title : String
  pub objective_refs : List String
  pub depends_on : List String
  pub acceptance_criteria : List String
  pub risk_level : String
  pub status : RoadmapItemStatus
  pub superseded_by : Option String
  pub priority : ℤ

pub record Roadmap : Type 0 where
  pub schema_version : String
  pub roadmap_id : String
  pub version : String
  pub objective_id : String
  pub items : List RoadmapItem
  pub status : RoadmapStatus

-- `_TRANSITIONS[from]` contains `to`.
abbrev pub item_transitions : RoadmapItemStatus → RoadmapItemStatus → Bool
item_transitions RoadmapItemStatus.todo RoadmapItemStatus.ready = true
item_transitions RoadmapItemStatus.todo RoadmapItemStatus.blocked = true
item_transitions RoadmapItemStatus.todo RoadmapItemStatus.superseded = true
item_transitions RoadmapItemStatus.ready RoadmapItemStatus.in_progress = true
item_transitions RoadmapItemStatus.ready RoadmapItemStatus.blocked = true
item_transitions RoadmapItemStatus.ready RoadmapItemStatus.superseded = true
item_transitions RoadmapItemStatus.in_progress RoadmapItemStatus.completed = true
item_transitions RoadmapItemStatus.in_progress RoadmapItemStatus.blocked = true
item_transitions RoadmapItemStatus.in_progress RoadmapItemStatus.superseded = true
item_transitions RoadmapItemStatus.blocked RoadmapItemStatus.ready = true
item_transitions RoadmapItemStatus.blocked RoadmapItemStatus.superseded = true
item_transitions RoadmapItemStatus.completed RoadmapItemStatus.superseded = true
item_transitions _ _ = false

abbrev pub is_empty {ℓ} : {A : Type ℓ} → List A → Bool
is_empty [] = true
is_empty (x ∷ xs) = false

abbrev pub is_none {ℓ} : {A : Type ℓ} → Option A → Bool
is_none none = true
is_none (some a) = false

-- `superseded_by is None or _ITEM_ID.fullmatch(superseded_by)`
abbrev link_is_valid : Option String → Bool
link_is_valid none = true
link_is_valid (some x) = is_identifier "item-" x

-- The tests of `_validate_item`, each with the exception that its failure raises.
abbrev pub item_checks : RoadmapItem → List (Bool × Error)
item_checks item =
    (is_identifier "item-" item.item_id, roadmap_validation_error "item_id is invalid")
    ∷ (
      has_text item.title && len_le item.title 4000,
      roadmap_validation_error "item title is invalid",
    )
    ∷ (
      not (is_empty item.objective_refs) && all (is_identifier "requirement-") item.objective_refs,
      roadmap_validation_error ("item " ++ item.item_id ++ " has invalid objective references"),
    )
    ∷ (
      str_distinct item.depends_on,
      roadmap_validation_error ("item " ++ item.item_id ++ " dependencies must be unique"),
    )
    ∷ (
      not (is_empty item.acceptance_criteria) && all has_text item.acceptance_criteria,
      roadmap_validation_error ("item " ++ item.item_id ++ " acceptance criteria are invalid"),
    )
    ∷ (
      has_text item.risk_level,
      roadmap_validation_error ("item " ++ item.item_id ++ " risk level is required"),
    )
    ∷ (
      leb_ℤ (pos 0) item.priority && leb_ℤ item.priority (pos 1000),
      roadmap_validation_error ("item " ++ item.item_id ++ " priority is invalid"),
    )
    ∷ (
      link_is_valid item.superseded_by,
      roadmap_validation_error ("item " ++ item.item_id ++ " superseded_by is invalid"),
    )
    ∷ (
      item_status_is item.status RoadmapItemStatus.superseded || is_none item.superseded_by,
      roadmap_validation_error "only SUPERSEDED items may have superseded_by",
    )
    ∷ []

-- `_validate_item`
unfoldable pub validate_item : RoadmapItem → Result (Unit {0})
validate_item item = require_all (item_checks item)

-- `[item.item_id for item in items]`
abbrev pub item_ids : List RoadmapItem → List String
item_ids [] = []
item_ids (item ∷ items) = item.item_id ∷ item_ids items

-- The loop over the items in `validate`.
unfoldable pub validate_items : List String → List RoadmapItem → Result (Unit {0})
validate_items known [] = ok tt
validate_items known (item ∷ items) = do
  validate_item item
  raise_if (not (str_subset item.depends_on known))
      (roadmap_validation_error ("item " ++ item.item_id ++ " has an unknown dependency"))
  validate_items known items

-- `edges`, the dependencies by item.
abbrev pub item_edges : List RoadmapItem → Edges
item_edges [] = []
item_edges (item ∷ items) = (item.item_id, item.depends_on) ∷ item_edges items

-- The tests of `validate` that come before its loop.
abbrev pub roadmap_checks : Roadmap → List (Bool × Error)
roadmap_checks r =
    (str_eq r.schema_version "1.0", roadmap_validation_error "schema_version must be 1.0")
    ∷ (is_identifier "roadmap-" r.roadmap_id, roadmap_validation_error "roadmap_id is invalid")
    ∷ (has_text r.version, roadmap_validation_error "version is required")
    ∷ (
      is_identifier "objective-" r.objective_id,
      roadmap_validation_error "objective_id is invalid",
    )
    ∷ (
      not (is_empty r.items) && leb (length r.items) 500,
      roadmap_validation_error "items must contain 1 to 500 items",
    )
    ∷ (str_distinct (item_ids r.items), roadmap_validation_error "item_id values must be unique")
    ∷ []

-- `Roadmap.validate`
unfoldable pub validate : Roadmap → Result (Unit {0})
validate r = do
  require_all (roadmap_checks r)
  validate_items (item_ids r.items) r.items
  validate_acyclic (item_edges r.items)
