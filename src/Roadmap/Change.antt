-- ===== src/Roadmap/Change.antt =====
-- What `transition` and `supersede` do to a roadmap that validates: they change one item, and their own
-- validation never fails.
use agf_orchestrator.Base.{
  ◌≡◌, refl, ap, ◌∙◌, sym, subst, true, List, [], ◌∷◌, String, arith, All, Bool-cases, inl, inr,
  length,
}
use agf_orchestrator.Base.Raise.{ok}
use agf_orchestrator.Base.Text.{str_eq, str_eq_iff, str_subset}
use agf_orchestrator.Roadmap.Models.{
  RoadmapItem, Roadmap, item_ids, item_edges, item_checks, is_empty,
}
use agf_orchestrator.Roadmap.Lifecycle.{matches, get_item, replace_in}
use agf_orchestrator.Roadmap.Valid.{IsValidItem, IsValid}

-- Every item with the identity `x` is `item`.
abbrev pub Unique : String → RoadmapItem → List RoadmapItem → Type 0
Unique x item = All (λ i. str_eq i.item_id x ≡ true → i ≡ item)

Unique-none :
    (x : String) (item : RoadmapItem) (items : List RoadmapItem)
    → matches x items ≡ []
    → Unique x item items
Unique-none x item [] h = tt
Unique-none x item (i ∷ items) h = ((λ m. ground arith), Unique-none x item items (ground arith))

pub Unique-matches :
    (x : String) (item : RoadmapItem) (items : List RoadmapItem)
    → matches x items ≡ item ∷ []
    → Unique x item items
Unique-matches x item [] h = tt
Unique-matches x item (i ∷ items) h = elim (Bool-cases (str_eq i.item_id x)) [
  | inl same ↦ let h' = rw same at h in ((λ m. cc), Unique-none x item items (cc))
  | inr other ↦ ((λ m. absurd (cc)), Unique-matches x item items (rw other at h))
]

pub item_id_of_matches :
    (x : String) (item : RoadmapItem) (items : List RoadmapItem)
    → matches x items ≡ item ∷ []
    → item.item_id ≡ x
item_id_of_matches x item [] h = cc
item_id_of_matches x item (i ∷ items) h = elim (Bool-cases (str_eq i.item_id x)) [
  | inl same ↦
      let h' = rw same at h in
      let e : i ≡ item = cc in
      ap (λ (j : RoadmapItem). j.item_id) (sym e) ∙ (str_eq_iff i.item_id x).0 same
  | inr other ↦ item_id_of_matches x item items (rw other at h)
]

-- `_item` found the one item of its identity.
pub get_item-matches :
    (r : Roadmap) (x : String) (item : RoadmapItem)
    → get_item r x ≡ ok item
    → matches x r.items ≡ item ∷ []
unfolding get_item
get_item-matches r x item h = ground arith

pub All-of-matches {κ} :
    (P : RoadmapItem → Type κ) (x : String) (item : RoadmapItem) (items : List RoadmapItem)
    → All P items
    → matches x items ≡ item ∷ []
    → P item
All-of-matches P x item [] v h = cc
All-of-matches P x item (i ∷ items) v h = elim (Bool-cases (str_eq i.item_id x)) [
  | inl same ↦ let h' = rw same at h in let e : i ≡ item = cc in subst P e v.0
  | inr other ↦ All-of-matches P x item items v.1 (rw other at h)
]

item_ids-replace_in :
    (u : RoadmapItem) (items : List RoadmapItem) → item_ids (replace_in u items) ≡ item_ids items
item_ids-replace_in u [] = refl
item_ids-replace_in u (i ∷ items) =
    ground (arith, str_eq_iff i.item_id u.item_id, item_ids-replace_in u items)

item_edges-replace_in :
    (u item : RoadmapItem) (items : List RoadmapItem)
    → Unique u.item_id item items
    → u.depends_on ≡ item.depends_on
    → item_edges (replace_in u items) ≡ item_edges items
item_edges-replace_in u item [] only e = refl
item_edges-replace_in u item (i ∷ items) only e = ground (
  arith,
  str_eq_iff i.item_id u.item_id,
  item_edges-replace_in u item items only.1 e,
  λ (m : str_eq i.item_id u.item_id ≡ true). ap (λ (j : RoadmapItem). j.depends_on) (only.0 m),
)

length-replace_in :
    (u : RoadmapItem) (items : List RoadmapItem) → length (replace_in u items) ≡ length items
length-replace_in u [] = refl
length-replace_in u (i ∷ items) = omega (arith, length-replace_in u items)

is_empty-replace_in :
    (u : RoadmapItem) (items : List RoadmapItem) → is_empty (replace_in u items) ≡ is_empty items
is_empty-replace_in u [] = refl
is_empty-replace_in u (i ∷ items) = refl

pub All-replace_in {κ} :
    (P : RoadmapItem → Type κ) (u : RoadmapItem) (items : List RoadmapItem)
    → All P items
    → P u
    → All P (replace_in u items)
All-replace_in P u [] v pu = tt
All-replace_in P u (i ∷ items) v pu = elim (Bool-cases (str_eq i.item_id u.item_id)) [
  | inl same ↦ rw same (pu, All-replace_in P u items v.1 pu)
  | inr other ↦ rw other (v.0, All-replace_in P u items v.1 pu)
]

-- The roadmap with an item replaced.
abbrev pub with_item : Roadmap → RoadmapItem → Roadmap
with_item r u = record r { items = replace_in u r.items }

-- A valid item in the place of one with its identity and dependencies keeps the roadmap valid.
pub with_item-IsValid :
    (r : Roadmap) (item u : RoadmapItem)
    → IsValid r
    → matches u.item_id r.items ≡ item ∷ []
    → u.depends_on ≡ item.depends_on
    → All (λ c. c.0 ≡ true) (item_checks u)
    → IsValid (with_item r u)
with_item-IsValid r item u v found e checks = record {
  checks =
      rw (is_empty-replace_in u r.items, length-replace_in u r.items, item_ids-replace_in u r.items)
        v.checks;
  items =
      rw (item_ids-replace_in u r.items)
        (All-replace_in (IsValidItem (item_ids r.items)) u r.items v.items (checks, rw e closed));
  acyclic =
      rw (item_edges-replace_in u item r.items (Unique-matches u.item_id item r.items found) e)
        v.acyclic;
}
  where
    closed : str_subset item.depends_on (item_ids r.items) ≡ true
    closed =
        (All-of-matches (IsValidItem (item_ids r.items)) u.item_id item r.items v.items found).1
