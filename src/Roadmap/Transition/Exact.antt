-- ===== src/Roadmap/Transition/Exact.antt =====
-- What `Roadmap.transition` and `Roadmap.supersede` change, item by item.
use agf_orchestrator.Base.{
  ◌≡◌, ◌≢◌, ◌↔◌, refl, ap, ◌∙◌, sym, subst, true, false, List, [], ◌∷◌, String, Bool-cases, inl,
  inr, ◌⊎◌, some,
}
use agf_orchestrator.Base.Raise.{ok}
use agf_orchestrator.Base.Text.{str_eq, str_eq_iff}
use agf_orchestrator.Roadmap.Models.{
  RoadmapItem, RoadmapItemStatus, item_status_is, Roadmap, validate, item_transitions,
}
use agf_orchestrator.Roadmap.Lifecycle.{get_item, replace_in, transition, supersede}
use agf_orchestrator.Roadmap.Change.{with_item, get_item-matches, item_id_of_matches}
use agf_orchestrator.Roadmap.Transition.{
  moved, replaced, MayComplete, transition-with_item, supersede-with_item,
}

-- The items of two lists are the same one by one, but that the second has `new` for those of the identity `x`.
abbrev pub ChangesOne : String → RoadmapItem → List RoadmapItem → List RoadmapItem → Type 0
ChangesOne x new [] [] = Unit
ChangesOne x new [] (b ∷ bs) = ⊥
ChangesOne x new (a ∷ os) [] = ⊥
ChangesOne x new (a ∷ os) (b ∷ bs) =
    (((a.item_id ≡ x) × (b ≡ new)) ⊎ ((a.item_id ≢ x) × (b ≡ a))) × ChangesOne x new os bs

-- Nothing but the item of the identity `x` differs.
abbrev pub IsUpdate : String → RoadmapItem → Roadmap → Roadmap → Type 0
IsUpdate x new r r' = (r' ≡ record r { items = r'.items }) × ChangesOne x new r.items r'.items

ChangesOne-replace_in :
    (new : RoadmapItem) (items : List RoadmapItem)
    → ChangesOne new.item_id new items (replace_in new items)
ChangesOne-replace_in new [] = tt
ChangesOne-replace_in new (a ∷ os) = elim (Bool-cases (str_eq a.item_id new.item_id)) [
  | inl same ↦
      rw same (inl ((str_eq_iff a.item_id new.item_id).0 same, refl), ChangesOne-replace_in new os)
  | inr other ↦ rw other (
    inr ((λ e. let k = (str_eq_iff a.item_id new.item_id).1 e in cc), refl),
    ChangesOne-replace_in new os,
  )
]

-- There is one such list.
ChangesOne-unique :
    (x : String) (new : RoadmapItem) (os bs : List RoadmapItem)
    → new.item_id ≡ x
    → ChangesOne x new os bs
    → bs ≡ replace_in new os
ChangesOne-unique x new [] [] e h = refl
ChangesOne-unique x new [] (b ∷ bs) e h = absurd h
ChangesOne-unique x new (a ∷ os) [] e h = absurd h
ChangesOne-unique x new (a ∷ os) (b ∷ bs) e (head, rest) =
    let more = ChangesOne-unique x new os bs e rest in
    elim head [
      | inl (here, is_new) ↦
          let same = (str_eq_iff a.item_id new.item_id).1 (here ∙ sym e) in
          rw same (ap (λ c. c ∷ bs) is_new ∙ ap (λ l. new ∷ l) more)
      | inr (there, kept) ↦ elim (Bool-cases (str_eq a.item_id new.item_id)) [
        | inl same ↦ absurd (there ((str_eq_iff a.item_id new.item_id).0 same ∙ e))
        | inr other ↦ rw other (ap (λ c. c ∷ bs) kept ∙ ap (λ l. a ∷ l) more)
      ]
    ]

-- The roadmap with the item replaced is the one that is updated so.
with_item_iff :
    (x : String) (new : RoadmapItem) (r r' : Roadmap)
    → new.item_id ≡ x
    → (with_item r new ≡ r') ↔ IsUpdate x new r r'
with_item_iff x new r r' e = (
  λ same. subst (IsUpdate x new r) same (
    refl,
    subst (λ y. ChangesOne y new r.items (replace_in new r.items)) e
        (ChangesOne-replace_in new r.items),
  ),
  λ (rest, items).
      sym (
        rest ∙ ap (λ l. record r { items = l }) (ChangesOne-unique x new r.items r'.items e items)),
)

id_of : (r : Roadmap) (x : String) (item : RoadmapItem) → get_item r x ≡ ok item → item.item_id ≡ x
id_of r x item found = item_id_of_matches x item r.items (get_item-matches r x item found)

-- On a roadmap that validates, `transition` gives a roadmap exactly if the identity names an item, the
-- table has the edge and, for a move to COMPLETED, all dependencies are COMPLETED, and the roadmap given
-- has the same fields and the same items in the same order, but for that item, which has the new status
-- and is otherwise as it was.
pub transition_iff :
    (r r' : Roadmap) (x : String) (status : RoadmapItemStatus)
    → validate r ≡ ok tt
    → (transition r x status ≡ ok r') ↔ (
        (item : RoadmapItem) × (get_item r x ≡ ok item)
        × (item_transitions item.status status ≡ true)
        × MayComplete r item status
        × IsUpdate x (record item { status = status }) r r')
transition_iff r r' x status h = (
  λ run.
      let (item, found, edge, done, same) = (transition-with_item r r' x status h).0 run in
      (
        item,
        found,
        edge,
        done,
        (with_item_iff x (moved item status) r r' (id_of r x item found)).0 same,
      ),
  λ (item, found, edge, done, update). (transition-with_item r r' x status h).1 (
    item,
    found,
    edge,
    done,
    (with_item_iff x (moved item status) r r' (id_of r x item found)).1 update,
  ),
)

-- On a roadmap that validates, `supersede` gives a roadmap exactly if the two identities differ and name
-- items, the first item is not SUPERSEDED, and the roadmap given has the same fields and the same items in
-- the same order, but for that item, which is SUPERSEDED with a link to the other and otherwise as it was.
pub supersede_iff :
    (r r' : Roadmap) (x by : String)
    → validate r ≡ ok tt
    → (supersede r x by ≡ ok r') ↔ (
        (item : RoadmapItem) × (replacement : RoadmapItem) × (x ≢ by)
        × (get_item r x ≡ ok item)
        × (get_item r by ≡ ok replacement)
        × (item_status_is item.status RoadmapItemStatus.superseded ≡ false)
        × IsUpdate x
            (record item { status = RoadmapItemStatus.superseded; superseded_by = some by })
            r
            r')
supersede_iff r r' x by h = (
  λ run.
      let (item, other, ne, found, found_by, fresh, same) =
        (supersede-with_item r r' x by h).0 run in
      (
        item,
        other,
        ne,
        found,
        found_by,
        fresh,
        (with_item_iff x (replaced item by) r r' (id_of r x item found)).0 same,
      ),
  λ (item, other, ne, found, found_by, fresh, update). (supersede-with_item r r' x by h).1 (
    item,
    other,
    ne,
    found,
    found_by,
    fresh,
    (with_item_iff x (replaced item by) r r' (id_of r x item found)).1 update,
  ),
)
