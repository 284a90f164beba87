-- ===== src/Roadmap/Lifecycle.antt =====
-- The operations of `Roadmap`: item transitions, supersession, eligibility and revision.
pub mod Numbers
use Prim.Native.String.{◌++◌}
use agf_orchestrator.Base.{
  ℕ, Bool, true, false, not, ◌&&◌, ◌||◌, Option, none, some, List, [], ◌∷◌, String, map,
  if◌then◌else◌,
}
use agf_orchestrator.Base.Int.{ℤ, ltb_ℤ, eq_ℤ}
use agf_orchestrator.Base.Raise.{
  Error, Result, ok, raise, roadmap_validation_error, key_error, raise_if, ◌>>=◌, ◌>>◌,
}
use agf_orchestrator.Base.Sort.{sort_by}
use agf_orchestrator.Base.Text.{str_eq, str_lt, is_digit_text}
use agf_orchestrator.Roadmap.Models.{
  RoadmapItemStatus, item_status_value, item_status_is, RoadmapItem, Roadmap, item_transitions,
  validate,
}

-- The items with an identity.
abbrev pub matches : String → List RoadmapItem → List RoadmapItem
matches x [] = []
matches x (item ∷ items) =
    let rest = matches x items in if str_eq item.item_id x then item ∷ rest else rest

abbrev only : List RoadmapItem → Result RoadmapItem
only (item ∷ []) = ok item
only _ = raise (roadmap_validation_error "roadmap item is missing or ambiguous")

-- `_item`
unfoldable pub get_item : Roadmap → String → Result RoadmapItem
get_item r x = only (matches x r.items)

-- `{item.item_id: item for item in self.items}.get(x)`: the last item of an identity counts.
abbrev pub item_map : List RoadmapItem → String → Option RoadmapItem
item_map [] x = none
item_map (item ∷ items) x = elim (item_map items x) [
  | some later ↦ some later
  | none ↦ if str_eq item.item_id x then some item else none
]

-- `all(items[dependency].status is COMPLETED for dependency in dependencies)`
unfoldable pub all_completed : List RoadmapItem → List String → Result Bool
all_completed items [] = ok true
all_completed items (d ∷ ds) =
    let rest = all_completed items ds in
    elim (item_map items d) [
      | none ↦ raise (key_error d)
      | some item ↦
          if item_status_is item.status RoadmapItemStatus.completed then rest else ok false
    ]

-- `tuple(updated if item.item_id == updated.item_id else item for item in self.items)`
abbrev pub replace_in : RoadmapItem → List RoadmapItem → List RoadmapItem
replace_in updated [] = []
replace_in updated (item ∷ items) =
    (if str_eq item.item_id updated.item_id then updated else item) ∷ replace_in updated items

-- `_replace_item`
unfoldable pub replace_item : Roadmap → RoadmapItem → Result Roadmap
replace_item r updated =
    let roadmap = record r { items = replace_in updated r.items } in validate roadmap >> ok roadmap

-- The guard of `transition` on the move to COMPLETED.
unfoldable pub may_complete : Roadmap → RoadmapItem → RoadmapItemStatus → Result (Unit {0})
may_complete r item status =
    if item_status_is status RoadmapItemStatus.completed
    then (all_completed r.items item.depends_on >>= λ done.
        raise_if (not done) (roadmap_validation_error "item cannot complete before dependencies"))
    else ok tt

-- `Roadmap.transition`
unfoldable pub transition : Roadmap → String → RoadmapItemStatus → Result Roadmap
transition r x status = do
  item ← get_item r x
  raise_if (not (item_transitions item.status status)) (
      roadmap_validation_error (
        "invalid lifecycle transition: "
        ++ item_status_value item.status
        ++ " -> "
        ++ item_status_value status))
  may_complete r item status
  replace_item r (record item { status = status })

-- `Roadmap.supersede`
unfoldable pub supersede : Roadmap → String → String → Result Roadmap
supersede r x replacement = do
  raise_if (str_eq x replacement) (roadmap_validation_error "an item cannot supersede itself")
  item ← get_item r x
  found ← get_item r replacement
  raise_if (item_status_is item.status RoadmapItemStatus.superseded)
      (roadmap_validation_error "superseded item cannot be superseded again")
  replace_item r
      (record item { status = RoadmapItemStatus.superseded; superseded_by = some replacement })

-- The key `(item.priority, item.item_id)`, in its order.
abbrev pub key_lt : RoadmapItem → RoadmapItem → Bool
key_lt a b =
    ltb_ℤ a.priority b.priority || (eq_ℤ a.priority b.priority && str_lt a.item_id b.item_id)

-- The generator of `eligible_items`.
unfoldable pub eligible_from : List RoadmapItem → List RoadmapItem → Result (List RoadmapItem)
unfolding all_completed
eligible_from items [] = ok []
eligible_from items (item ∷ rest) =
    let later = eligible_from items rest in
    if item_status_is item.status RoadmapItemStatus.ready
    then (all_completed items item.depends_on >>= λ done.
        later >>= λ found. ok (if done then item ∷ found else found))
    else later

-- `Roadmap.eligible_items`
unfoldable pub eligible_items : Roadmap → Result (List RoadmapItem)
eligible_items r = eligible_from r.items r.items >>= λ found. ok (sort_by key_lt found)
