-- ===== src/Roadmap/Valid.antt =====
-- What `Roadmap.validate` guarantees.
use agf_orchestrator.Base.{◌≡◌, refl, true, List, [], ◌∷◌, String, All, Bool-cases, inl, inr}
use agf_orchestrator.Base.Raise.{ok, require_all-eq-ok, require_all_of_All, require_all, >>=-eq-ok}
use agf_orchestrator.Base.Text.{str_subset}
use agf_orchestrator.Roadmap.Acyclic.{validate_acyclic}
use agf_orchestrator.Roadmap.Models.{
  RoadmapItem, Roadmap, item_checks, roadmap_checks, item_ids, item_edges, validate_item,
  validate_items, validate,
}

-- An item that passes its checks, with dependencies among the known items.
abbrev pub IsValidItem : List String → RoadmapItem → Type 0
IsValidItem known item =
    All (λ c. c.0 ≡ true) (item_checks item) × (str_subset item.depends_on known ≡ true)

validate_items-All :
    (known : List String) (items : List RoadmapItem)
    → validate_items known items ≡ ok tt
    → All (IsValidItem known) items
unfolding validate_items validate_item
validate_items-All known [] h = tt
validate_items-All known (item ∷ items) h =
    let (_, first, rest) = >>=-eq-ok (require_all (item_checks item)) _ h in
    elim (Bool-cases (str_subset item.depends_on known)) [
      | inl closed ↦ (
        (require_all-eq-ok (item_checks item) first, closed),
        validate_items-All known items (rw closed at rest),
      )
      | inr open_end ↦ let h' = rw open_end at rest in absurd (cc)
    ]

validate_items_of_All :
    (known : List String) (items : List RoadmapItem)
    → All (IsValidItem known) items
    → validate_items known items ≡ ok tt
unfolding validate_items validate_item
validate_items_of_All known [] h = refl
validate_items_of_All known (item ∷ items) ((checks, closed), rest) =
    rw (require_all_of_All (item_checks item) checks, closed)
      (validate_items_of_All known items rest)

-- A roadmap that `validate` accepts, part by part.
pub record IsValid (r : Roadmap) : Type 0 where
  pub checks : All (λ c. c.0 ≡ true) (roadmap_checks r)
  pub items : All (IsValidItem (item_ids r.items)) r.items
  pub acyclic : validate_acyclic (item_edges r.items) ≡ ok tt

pub validate-IsValid : (r : Roadmap) → validate r ≡ ok tt → IsValid r
unfolding validate
validate-IsValid r h =
    let (_, head, rest) = >>=-eq-ok (require_all (roadmap_checks r)) _ h in
    let (_, loop, acyclic) = >>=-eq-ok (validate_items (item_ids r.items) r.items) _ rest in
    record {
      checks = require_all-eq-ok (roadmap_checks r) head;
      items = validate_items-All (item_ids r.items) r.items loop;
      acyclic = acyclic;
    }

pub validate_of_IsValid : (r : Roadmap) → IsValid r → validate r ≡ ok tt
unfolding validate
validate_of_IsValid r v =
    rw
      (
        require_all_of_All (roadmap_checks r) v.checks,
        validate_items_of_All (item_ids r.items) r.items v.items,
      )
      v.acyclic
