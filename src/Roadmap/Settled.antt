-- ===== src/Roadmap/Settled.antt =====
-- An invariant of the lifecycle: completed work rests on finished work.
use agf_orchestrator.Base.{
  ◌≡◌, refl, ap, ◌∙◌, sym, subst, Bool, true, false, ◌||◌, List, [], ◌∷◌, String, arith, All, all,
  Bool-cases, and_true, inl, inr, none, some, Option-cases, if◌then◌else◌,
}
use agf_orchestrator.Base.Raise.{ok}
use agf_orchestrator.Base.Text.{str_eq, str_eq_iff}
use agf_orchestrator.Roadmap.Models.{
  RoadmapItem, RoadmapItemStatus, item_status_is, Roadmap, validate, item_transitions,
}
use agf_orchestrator.Roadmap.Lifecycle.{
  matches, get_item, item_map, replace_in, transition, supersede,
}
use agf_orchestrator.Roadmap.Eligible.{is_completed}
use agf_orchestrator.Roadmap.Change.{
  Unique, Unique-matches, item_id_of_matches, get_item-matches, with_item, All-replace_in,
}
use agf_orchestrator.Roadmap.Transition.{moved, replaced, transition-with_item, supersede-with_item}

abbrev finished : RoadmapItemStatus → Bool
finished s =
    item_status_is s RoadmapItemStatus.completed || item_status_is s RoadmapItemStatus.superseded

-- Whether an item is in the roadmap and COMPLETED or SUPERSEDED.
abbrev is_settled : List RoadmapItem → String → Bool
is_settled items d = elim (item_map items d) [ none ↦ false | some item ↦ finished item.status ]

-- Every COMPLETED item depends on COMPLETED or SUPERSEDED items alone.
abbrev IsSettledIn : List RoadmapItem → List RoadmapItem → Type 0
IsSettledIn all_items items =
    All
      (λ (i : RoadmapItem).
        item_status_is i.status RoadmapItemStatus.completed ≡ true
        → all (is_settled all_items) i.depends_on ≡ true)
      items

abbrev pub IsSettled : Roadmap → Type 0
IsSettled r = IsSettledIn r.items r.items

item_map-replace_in :
    (u : RoadmapItem) (items : List RoadmapItem) (d : String)
    → item_map (replace_in u items) d ≡ elim (item_map items d) [
      | none ↦ none
      | some i ↦ some (if str_eq i.item_id u.item_id then u else i)
    ]
item_map-replace_in u [] d = refl
item_map-replace_in u (i ∷ items) d = ground (
  arith,
  item_map-replace_in u items d,
  str_eq_iff i.item_id u.item_id,
  str_eq_iff i.item_id d,
  str_eq_iff u.item_id d,
)

item_map-All {κ} :
    (P : RoadmapItem → Type κ) (items : List RoadmapItem) (d : String) (i : RoadmapItem)
    → All P items
    → item_map items d ≡ some i
    → P i
item_map-All P [] d i v e = cc
item_map-All P (j ∷ items) d i v e = elim (Option-cases (item_map items d)) [
  | inr (later, found) ↦ item_map-All P items d i v.1 (ground arith)
  | inl nothing ↦ elim (Bool-cases (str_eq j.item_id d)) [
    | inl same ↦ let e' : j ≡ i = ground arith in subst P e' v.0
    | inr other ↦ absurd (ground arith)
  ]
]

module _ (u item : RoadmapItem) (items : List RoadmapItem) (only : Unique u.item_id item items)
    (keeps : finished item.status ≡ true → finished u.status ≡ true) where
  is_settled-replace_in :
      (d : String) → is_settled items d ≡ true → is_settled (replace_in u items) d ≡ true
  is_settled-replace_in d h = elim (Option-cases (item_map items d)) [
    | inl nothing ↦ absurd (ground arith)
    | inr (i, found) ↦ elim (Bool-cases (str_eq i.item_id u.item_id)) [
      | inl same ↦
          let e : i ≡ item =
            item_map-All (λ j. str_eq j.item_id u.item_id ≡ true → j ≡ item) items d i only found
              same in
          let status : finished i.status ≡ finished item.status =
            ap (λ (j : RoadmapItem). finished j.status) e in
          ground (arith, item_map-replace_in u items d, keeps)
      | inr other ↦ ground (arith, item_map-replace_in u items d)
    ]
  ]

  all-settled :
      (ds : List String)
      → all (is_settled items) ds ≡ true
      → all (is_settled (replace_in u items)) ds ≡ true
  all-settled [] h = refl
  all-settled (d ∷ ds) h =
      let (first, rest) = and_true (is_settled items d) (all (is_settled items) ds) h in
      rw (is_settled-replace_in d first) (all-settled ds rest)

  -- Every item keeps settled dependencies when one item changes.
  IsSettledIn-replace_in :
      (js : List RoadmapItem) → IsSettledIn items js → IsSettledIn (replace_in u items) js
  IsSettledIn-replace_in [] v = tt
  IsSettledIn-replace_in (j ∷ js) v =
      ((λ c. all-settled j.depends_on (v.0 c)), IsSettledIn-replace_in js v.1)

settled_of_completed :
    (items : List RoadmapItem) (ds : List String)
    → all (is_completed items) ds ≡ true
    → all (is_settled items) ds ≡ true
settled_of_completed items [] h = refl
settled_of_completed items (d ∷ ds) h =
    let (first, rest) = and_true (is_completed items d) (all (is_completed items) ds) h in
    ground (arith, settled_of_completed items ds rest, first)

-- An item in the place of another keeps the invariant, if it stays finished once it is, and if it is
-- COMPLETED only with settled dependencies.
with_item-IsSettled :
    (r : Roadmap) (x : String) (item u : RoadmapItem)
    → IsSettled r
    → get_item r x ≡ ok item
    → u.item_id ≡ item.item_id
    → (finished item.status ≡ true → finished u.status ≡ true)
    → (item_status_is u.status RoadmapItemStatus.completed ≡ true
        → all (is_settled r.items) u.depends_on ≡ true)
    → IsSettled (with_item r u)
with_item-IsSettled r x item u v found e keeps done =
    All-replace_in _ u r.items (IsSettledIn-replace_in u item r.items only keeps r.items v)
      (λ c. all-settled u item r.items only keeps u.depends_on (done c))
  where
    m : matches x r.items ≡ item ∷ []
    m = get_item-matches r x item found

    only : Unique u.item_id item r.items
    only =
        subst (λ y. Unique y item r.items) (sym (item_id_of_matches x item r.items m) ∙ sym e)
          (Unique-matches x item r.items m)

finished_edge :
    (from to : RoadmapItemStatus)
    → item_transitions from to ≡ true
    → finished from ≡ true
    → finished to ≡ true
finished_edge from to edge h = ground arith

completed_is :
    (s : RoadmapItemStatus)
    → item_status_is s RoadmapItemStatus.completed ≡ true
    → s ≡ RoadmapItemStatus.completed
completed_is s h = ground arith

-- `transition` and `supersede` preserve this: every COMPLETED item of the roadmap depends only on items
-- that are COMPLETED or SUPERSEDED.
pub transition-IsSettled :
    (r r' : Roadmap) (x : String) (status : RoadmapItemStatus)
    → validate r ≡ ok tt
    → IsSettled r
    → transition r x status ≡ ok r'
    → IsSettled r'
transition-IsSettled r r' x status h v run =
    let (item, found, edge, done, same) = (transition-with_item r r' x status h).0 run in
    subst IsSettled same (
      with_item-IsSettled r x item (moved item status) v found refl
        (finished_edge item.status status edge)
        (λ c. settled_of_completed r.items item.depends_on (done (completed_is status c))))

pub supersede-IsSettled :
    (r r' : Roadmap) (x by : String)
    → validate r ≡ ok tt
    → IsSettled r
    → supersede r x by ≡ ok r'
    → IsSettled r'
supersede-IsSettled r r' x by h v run =
    let (item, replacement, _, found, _, _, same) = (supersede-with_item r r' x by h).0 run in
    subst IsSettled same
      (with_item-IsSettled r x item (replaced item by) v found refl (λ f. refl) (λ c. cc))
