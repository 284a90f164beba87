-- ===== src/Roadmap/Eligible.antt =====
-- Which items `eligible_items` returns, and in which order.
use agf_orchestrator.Base.{
  ◌≡◌, refl, subst, Bool, true, false, ◌&&◌, ◌||◌, List, [], ◌∷◌, String, arith, All, all, keep,
  Bool-cases, inl, inr, none, some, Option-cases,
}
use agf_orchestrator.Base.Int.{ltb_ℤ, eq_ℤ}
use agf_orchestrator.Base.Raise.{ok, >>=-eq-ok}
use agf_orchestrator.Base.Order.{str_lt_asym, str_lt_split, IsSorted-sort_by}
use agf_orchestrator.Base.Sort.{sort_by, IsSorted, All-sort_by, All-keep}
use agf_orchestrator.Base.Text.{str_eq, str_lt, str_eq_iff, str_mem, str_subset, is_identifier}
use agf_orchestrator.Roadmap.Models.{
  RoadmapItem, RoadmapItemStatus, item_status_is, Roadmap, item_ids, validate,
}
use agf_orchestrator.Roadmap.Lifecycle.{
  item_map, all_completed, eligible_from, eligible_items, key_lt,
}
use agf_orchestrator.Roadmap.Valid.{IsValidItem, validate-IsValid}

-- Whether an item is in the roadmap and COMPLETED.
abbrev pub is_completed : List RoadmapItem → String → Bool
is_completed items d = elim (item_map items d) [
  | none ↦ false
  | some item ↦ item_status_is item.status RoadmapItemStatus.completed
]

-- READY, with every dependency COMPLETED.
abbrev pub is_eligible : List RoadmapItem → RoadmapItem → Bool
is_eligible items item =
    item_status_is item.status RoadmapItemStatus.ready && all (is_completed items) item.depends_on

item_map_known :
    (items : List RoadmapItem) (x : String)
    → str_mem x (item_ids items) ≡ true
    → (item : RoadmapItem) × (item_map items x ≡ some item)
item_map_known [] x m = cc
item_map_known (item ∷ items) x m = elim (Option-cases (item_map items x)) [
  | inr (later, e) ↦ (later, ground arith)
  | inl nothing ↦ elim (Bool-cases (str_eq item.item_id x)) [
    | inl same ↦ (item, ground arith)
    | inr other ↦
        let (later, e) =
          item_map_known items x
            (ground (arith, str_eq_iff item.item_id x, str_eq_iff x item.item_id)) in
        absurd (cc)
  ]
]

-- On known dependencies the lookups do not fail.
pub all_completed_known :
    (items : List RoadmapItem) (ds : List String)
    → str_subset ds (item_ids items) ≡ true
    → all_completed items ds ≡ ok (all (is_completed items) ds)
unfolding all_completed
all_completed_known items [] h = refl
all_completed_known items (d ∷ ds) h =
    let (item, e) = item_map_known items d (ground arith) in
    ground (arith, all_completed_known items ds)

eligible_from_known :
    (items rest : List RoadmapItem)
    → All (IsValidItem (item_ids items)) rest
    → eligible_from items rest ≡ ok (keep (is_eligible items) rest)
unfolding eligible_from
eligible_from_known items [] v = refl
eligible_from_known items (item ∷ rest) v =
    ground
      (arith, all_completed_known items item.depends_on v.0.1, eligible_from_known items rest v.1)

-- The order of eligible items: by priority, and by identity within a priority.
abbrev pub goes_first : RoadmapItem → RoadmapItem → Bool
goes_first a b =
    ltb_ℤ a.priority b.priority || (eq_ℤ a.priority b.priority && str_lt a.item_id b.item_id)

-- On a roadmap that validates, `eligible_items` never raises: it returns the items that are READY and
-- whose dependencies are all COMPLETED, sorted by priority and identity.
pub eligible_items_lem :
    (r : Roadmap)
    → validate r ≡ ok tt
    → eligible_items r ≡ ok (sort_by goes_first (keep (is_eligible r.items) r.items))
unfolding eligible_items
eligible_items_lem r h = rw (eligible_from_known r.items r.items (validate-IsValid r h).items)

key_lt_asym : (a b : RoadmapItem) → key_lt a b ≡ true → key_lt b a ≡ false
key_lt_asym a b h = ground (arith, str_lt_asym a.item_id b.item_id)

key_lt_split : (a b c : RoadmapItem) → key_lt a b ≡ false → key_lt b c ≡ false → key_lt a c ≡ false
key_lt_split a b c h k = ground (arith, str_lt_split a.item_id b.item_id c.item_id)

-- The items that `eligible_items` returns stand in the order of their priorities, and items of one
-- priority in the order of their identities.
pub eligible_items-IsSorted :
    (r : Roadmap) (found : List RoadmapItem) → eligible_items r ≡ ok found → IsSorted key_lt found
unfolding eligible_items
eligible_items-IsSorted r found h =
    let (items, _, same) =
      >>=-eq-ok (eligible_from r.items r.items) (λ f. ok (sort_by key_lt f)) h in
    let e : sort_by key_lt items ≡ found = cc in
    subst (IsSorted key_lt) e (IsSorted-sort_by key_lt key_lt_asym key_lt_split items)

-- The eligible items of a roadmap, by description.
abbrev pub eligible_of : Roadmap → List RoadmapItem
eligible_of r = sort_by key_lt (keep (is_eligible r.items) r.items)

ids_of :
    (known : List String) (items : List RoadmapItem)
    → All (IsValidItem known) items
    → All (λ (i : RoadmapItem). is_identifier "item-" i.item_id ≡ true) items
ids_of known [] v = tt
ids_of known (i ∷ items) v = (v.0.0.0, ids_of known items v.1)

pub eligible_of-ids :
    (r : Roadmap)
    → validate r ≡ ok tt
    → All (λ (i : RoadmapItem). is_identifier "item-" i.item_id ≡ true) (eligible_of r)
eligible_of-ids r h = All-sort_by _ key_lt (keep (is_eligible r.items) r.items) (
    All-keep _ (is_eligible r.items) r.items
      (ids_of (item_ids r.items) r.items (validate-IsValid r h).items))
