-- ===== src/Roadmap/Transition.antt =====
-- When `Roadmap.transition` and `Roadmap.supersede` succeed, and what they return.
pub mod Exact
use agf_orchestrator.Base.{
  ◌≡◌, ◌≢◌, ◌↔◌, refl, ap, ◌∙◌, sym, subst, true, false, [], ◌∷◌, String, arith, All, all,
  Bool-cases, inl, inr, some,
}
use agf_orchestrator.Base.Raise.{ok, >>=-eq-ok}
use agf_orchestrator.Base.Text.{str_eq, str_eq_iff, is_identifier}
use agf_orchestrator.Roadmap.Models.{
  RoadmapItem, RoadmapItemStatus, item_status_is, Roadmap, item_ids, validate, item_transitions,
  item_checks,
}
use agf_orchestrator.Roadmap.Lifecycle.{
  matches, get_item, replace_item, may_complete, transition, supersede,
}
use agf_orchestrator.Roadmap.Valid.{IsValidItem, IsValid, validate-IsValid, validate_of_IsValid}
use agf_orchestrator.Roadmap.Eligible.{is_completed, all_completed_known}
use agf_orchestrator.Roadmap.Change.{
  item_id_of_matches, get_item-matches, All-of-matches, with_item, with_item-IsValid,
}

-- The item after a transition.
abbrev pub moved : RoadmapItem → RoadmapItemStatus → RoadmapItem
moved item status = record item { status = status }

-- The item after it is superseded.
abbrev pub replaced : RoadmapItem → String → RoadmapItem
replaced item by = record item { status = RoadmapItemStatus.superseded; superseded_by = some by }

replace_item_ok :
    (r : Roadmap) (item u : RoadmapItem)
    → IsValid r
    → matches u.item_id r.items ≡ item ∷ []
    → u.depends_on ≡ item.depends_on
    → All (λ c. c.0 ≡ true) (item_checks u)
    → replace_item r u ≡ ok (with_item r u)
unfolding replace_item
replace_item_ok r item u v found e checks =
    rw (validate_of_IsValid (with_item r u) (with_item-IsValid r item u v found e checks))

-- A transition never leads out of SUPERSEDED, so the item that it moves has no replacement.
moved_checks :
    (item : RoadmapItem) (status : RoadmapItemStatus)
    → All (λ c. c.0 ≡ true) (item_checks item)
    → item_transitions item.status status ≡ true
    → All (λ c. c.0 ≡ true) (item_checks (moved item status))
moved_checks item status v edge = ground arith

replaced_checks :
    (item : RoadmapItem) (by : String)
    → All (λ c. c.0 ≡ true) (item_checks item)
    → is_identifier "item-" by ≡ true
    → All (λ c. c.0 ≡ true) (item_checks (replaced item by))
replaced_checks item by v known = ground arith

-- The guard on completion passes on a valid roadmap exactly if the dependencies are COMPLETED.
abbrev pub MayComplete : Roadmap → RoadmapItem → RoadmapItemStatus → Type 0
MayComplete r item status =
    status ≡ RoadmapItemStatus.completed → all (is_completed r.items) item.depends_on ≡ true

module _ (r : Roadmap) (x : String) (item : RoadmapItem) (v : IsValid r)
    (found : get_item r x ≡ ok item) where
  valid_item : IsValidItem (item_ids r.items) item
  valid_item =
      All-of-matches (IsValidItem (item_ids r.items)) x item r.items v.items
        (get_item-matches r x item found)

  own_matches : matches item.item_id r.items ≡ item ∷ []
  own_matches =
      let m = get_item-matches r x item found in
      subst (λ y. matches y r.items ≡ item ∷ []) (sym (item_id_of_matches x item r.items m)) m

  may_complete_iff :
      (status : RoadmapItemStatus)
      → (may_complete r item status ≡ ok tt) ↔ MayComplete r item status
  unfolding may_complete
  may_complete_iff status = (
    λ h e. ground (arith, all_completed_known r.items item.depends_on valid_item.1),
    λ done. ground (arith, all_completed_known r.items item.depends_on valid_item.1, done),
  )

  -- The three guards of `transition` that stand before its replacement.
  transition_guarded :
      (status : RoadmapItemStatus)
      → item_transitions item.status status ≡ true
      → MayComplete r item status
      → transition r x status ≡ ok (with_item r (moved item status))
  unfolding transition
  transition_guarded status edge done = rw (
    found,
    edge,
    (may_complete_iff status).1 done,
    replace_item_ok r item (moved item status) v own_matches refl
        (moved_checks item status valid_item.0 edge),
  )

  supersede_guarded :
      (by : String) (replacement : RoadmapItem)
      → str_eq x by ≡ false
      → get_item r by ≡ ok replacement
      → item_status_is item.status RoadmapItemStatus.superseded ≡ false
      → is_identifier "item-" by ≡ true
      → supersede r x by ≡ ok (with_item r (replaced item by))
  unfolding supersede
  supersede_guarded by replacement ne found_by fresh known = rw (
    ne,
    found,
    found_by,
    fresh,
    replace_item_ok r item (replaced item by) v own_matches refl
        (replaced_checks item by valid_item.0 known),
  )

-- `transition` on a valid roadmap, with the roadmap that its replacement builds.
pub transition-with_item :
    (r r' : Roadmap) (x : String) (status : RoadmapItemStatus)
    → validate r ≡ ok tt
    → (transition r x status ≡ ok r') ↔ (
        (item : RoadmapItem) × (get_item r x ≡ ok item)
        × (item_transitions item.status status ≡ true)
        × MayComplete r item status
        × (with_item r (moved item status) ≡ r'))
unfolding transition
transition-with_item r r' x status h = (
  λ run.
      let (item, found, rest) = >>=-eq-ok (get_item r x) _ run in
      elim (Bool-cases (item_transitions item.status status)) [
        | inr none_such ↦ let bad = rw none_such at rest in absurd (cc)
        | inl edge ↦
            let (_, guarded, _) = >>=-eq-ok (may_complete r item status) _ (rw edge at rest) in
            let v = validate-IsValid r h in
            let done = (may_complete_iff r x item v found status).0 guarded in
            let same = transition_guarded r x item v found status edge done in
            (item, found, edge, done, cc)
      ],
  λ (item, found, edge, done, same).
      transition_guarded r x item (validate-IsValid r h) found status edge done ∙ ap ok same,
)

-- `supersede` on a valid roadmap, with the roadmap that its replacement builds.
pub supersede-with_item :
    (r r' : Roadmap) (x by : String)
    → validate r ≡ ok tt
    → (supersede r x by ≡ ok r') ↔ (
        (item : RoadmapItem) × (replacement : RoadmapItem) × (x ≢ by)
        × (get_item r x ≡ ok item)
        × (get_item r by ≡ ok replacement)
        × (item_status_is item.status RoadmapItemStatus.superseded ≡ false)
        × (with_item r (replaced item by) ≡ r'))
unfolding supersede
supersede-with_item r r' x by h = (
  λ run. elim (Bool-cases (str_eq x by)) [
    | inl same ↦ let bad = rw same at run in absurd (cc)
    | inr other ↦
        let (item, found, rest) = >>=-eq-ok (get_item r x) _ (rw other at run) in
        let (replacement, found_by, rest') = >>=-eq-ok (get_item r by) _ rest in
        elim (Bool-cases (item_status_is item.status RoadmapItemStatus.superseded)) [
          | inl old ↦ let bad = rw old at rest' in absurd (cc)
          | inr fresh ↦
              let done =
                supersede_guarded r x item v found by replacement other found_by fresh
                  (known replacement found_by) in
              (item, replacement, apart other, found, found_by, fresh, cc)
        ]
  ],
  λ (item, replacement, ne, found, found_by, fresh, same).
      supersede_guarded r x item v found by replacement (differ ne) found_by fresh
        (known replacement found_by)
      ∙ ap ok same,
)
  where
    v : IsValid r
    v = validate-IsValid r h

    known : (i : RoadmapItem) → get_item r by ≡ ok i → is_identifier "item-" by ≡ true
    known i e =
        subst (λ y. is_identifier "item-" y ≡ true)
          (item_id_of_matches by i r.items (get_item-matches r by i e)) (valid_item r by i v e).0.0

    apart : str_eq x by ≡ false → x ≢ by
    apart o e = ground (arith, str_eq_iff x by)

    differ : x ≢ by → str_eq x by ≡ false
    differ ne = ground (arith, str_eq_iff x by)

pub transition-validate :
    (r r' : Roadmap) (x : String) (status : RoadmapItemStatus)
    → validate r ≡ ok tt
    → transition r x status ≡ ok r'
    → validate r' ≡ ok tt
transition-validate r r' x status h run =
    let (item, found, edge, _, same) = (transition-with_item r r' x status h).0 run in
    let v = validate-IsValid r h in
    subst (λ w. validate w ≡ ok tt) same
      (validate_of_IsValid (with_item r (moved item status)) (
        with_item-IsValid r item (moved item status) v (own_matches r x item v found) refl
          (moved_checks item status (valid_item r x item v found).0 edge)))

pub supersede-validate :
    (r r' : Roadmap) (x by : String)
    → validate r ≡ ok tt
    → supersede r x by ≡ ok r'
    → validate r' ≡ ok tt
supersede-validate r r' x by h run =
    let (item, other, _, found, found_by, _, same) = (supersede-with_item r r' x by h).0 run in
    let v = validate-IsValid r h in
    let known : is_identifier "item-" by ≡ true =
      subst (λ y. is_identifier "item-" y ≡ true)
        (item_id_of_matches by other r.items (get_item-matches r by other found_by))
        (valid_item r by other v found_by).0.0 in
    subst (λ w. validate w ≡ ok tt) same
      (validate_of_IsValid (with_item r (replaced item by)) (
        with_item-IsValid r item (replaced item by) v (own_matches r x item v found) refl
          (replaced_checks item by (valid_item r x item v found).0 known)))
