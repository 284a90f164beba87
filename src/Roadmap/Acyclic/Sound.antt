-- ===== src/Roadmap/Acyclic/Sound.antt =====
-- What a search that ends normally proves: the dependencies are well founded.
use mathlib.Core.WellFounded.{Acc}
use agf_orchestrator.Base.{
  ℕ, zero, suc, ◌≡◌, subst, ◌∙◌, length, ◌⊎◌, inl, inr, true, none, some, List, [], ◌∷◌, String,
  arith, Bool-cases, Option-cases,
}
use agf_orchestrator.Base.Raise.{Result, ok, raise, >>=-eq-ok}
use agf_orchestrator.Base.Sort.{sort_by, any-sort_by}
use agf_orchestrator.Base.Text.{str_eq, str_eq_iff, str_eq_refl, str_lt, str_mem}
use agf_orchestrator.Roadmap.Acyclic.{
  Edges, edge_lookup, edges_of, keys, visit_each, visit, visit_all, validate_acyclic,
}

-- The dependencies of an item.
abbrev targets : Edges → String → List String
targets es x = elim (edge_lookup x es) [ none ↦ [] | some ds ↦ ds ]

-- `d` is a dependency of `x`.
abbrev pub DependsOn : Edges → String → String → Type 0
DependsOn es d x = str_mem d (targets es x) ≡ true

pub targets_found :
    (es : Edges) (x : String) (ds : List String) → edge_lookup x es ≡ some ds → targets es x ≡ ds
targets_found es x ds e = rw (e, targets)

pub edges_of_found :
    (es : Edges) (x : String) (ds : List String)
    → edge_lookup x es ≡ some ds
    → edges_of es x ≡ ok ds
edges_of_found es x ds e = rw (e, edges_of)

-- Every item's dependencies stand behind it.
abbrev IsTopological : Edges → List String → Type 0
IsTopological es [] = Unit
IsTopological es (x ∷ xs) =
    ((d : String) → DependsOn es d x → str_mem d xs ≡ true) × IsTopological es xs

-- What one visit does to the visited set, when it ends normally.
abbrev Extends : Edges → List String → List String → List String → Type 0
Extends es visited ds out =
    IsTopological es out
    × ((d : String) → str_mem d ds ≡ true → str_mem d out ≡ true)
    × ((y : String) → str_mem y visited ≡ true → str_mem y out ≡ true)

str_mem-head : (x y : String) (ys : List String) → x ≡ y → str_mem x (y ∷ ys) ≡ true
str_mem-head x y ys e = rw e (rw (str_eq_refl y))

str_mem-tail : (x y : String) (ys : List String) → str_mem x ys ≡ true → str_mem x (y ∷ ys) ≡ true
str_mem-tail x y ys m = ground arith

module _ (es : Edges) (f : List String → String → Result (List String))
    (step : (v : List String) (d : String) (out : List String)
      → f v d ≡ ok out
      → IsTopological es v
      → Extends es v (d ∷ []) out) where
  visit_each-Extends :
      (ds v out : List String)
      → visit_each f ds v ≡ ok out
      → IsTopological es v
      → Extends es v ds out
  unfolding visit_each
  visit_each-Extends [] v out h t =
      let same : v ≡ out = cc in (subst (IsTopological es) same t, λ d m. cc, λ y m. rw (← same) m)
  visit_each-Extends (d ∷ ds) v out h t =
      let (w, first, rest) = >>=-eq-ok (f v d) (λ seen. visit_each f ds seen) h in
      let (tw, covers, keeps) = step v d w first t in
      let (tout, covers_rest, keeps_rest) = visit_each-Extends ds w out rest tw in
      (
        tout,
        λ c m. elim (Bool-cases (str_eq c d)) [
          | inl same ↦ keeps_rest c (covers c (rw same))
          | inr other ↦ covers_rest c (rw other at m)
        ],
        λ y m. keeps_rest y (keeps y m),
      )

-- How one visit ends normally: the item was visited before, or its dependencies are visited first.
abbrev Visited : ℕ → Edges → List String → List String → String → List String → Type 0
Visited n es visiting v x out =
    ((str_mem x v ≡ true) × (v ≡ out))
    ⊎ ((ds : List String) × (seen : List String) × (edge_lookup x es ≡ some ds)
        × (visit_each (visit n es (x ∷ visiting)) (sort_by str_lt ds) v ≡ ok seen)
        × (x ∷ seen ≡ out))

visit-Visited :
    (n : ℕ) (es : Edges) (visiting v : List String) (x : String) (out : List String)
    → visit (suc n) es visiting v x ≡ ok out
    → Visited n es visiting v x out
unfolding visit
visit-Visited n es visiting v x out h = elim (Bool-cases (str_mem x visiting)) [
  | inl cyclic ↦ let bad : raise _ ≡ ok out = rw cyclic at h in cc
  | inr fresh ↦ elim (Bool-cases (str_mem x v)) [
    | inl seen ↦ inl (seen, ground arith)
    | inr unseen ↦ elim (Option-cases (edge_lookup x es)) [
      | inl missing ↦ ground arith
      | inr (ds, found) ↦
          let h' = rw (fresh, unseen, edges_of_found es x ds found) at h in
          let (seen, visits, ends) =
            >>=-eq-ok (visit_each (visit n es (x ∷ visiting)) (sort_by str_lt ds) v)
              (λ w. ok (x ∷ w)) h' in
          inr (ds, seen, found, visits, cc)
    ]
  ]
]

mem_one : (d x : String) → str_mem d (x ∷ []) ≡ true → d ≡ x
mem_one d x m = ground (arith, str_eq_iff d x)

-- A visit that ends normally leaves the visited items topologically ordered, the item among them.
visit-Extends :
    (n : ℕ) (es : Edges) (visiting v : List String) (x : String) (out : List String)
    → visit n es visiting v x ≡ ok out
    → IsTopological es v
    → Extends es v (x ∷ []) out
visit-Extends zero es visiting v x out h t = unfold visit in cc
visit-Extends (suc n) es visiting v x out h t = elim (visit-Visited n es visiting v x out h) [
  | inl (old, same) ↦ (
    subst (IsTopological es) same t,
    λ d m. rw (mem_one d x m) (rw same at old),
    λ y m. rw same at m,
  )
  | inr (ds, seen, found, visits, ends) ↦
      let (tseen, covers, keeps) =
        visit_each-Extends es (visit n es (x ∷ visiting)) (visit-Extends n es (x ∷ visiting))
          (sort_by str_lt ds) v seen visits t in
      subst (Extends es v (x ∷ [])) ends (
        (
          λ d m.
              covers d (any-sort_by (str_eq d) str_lt ds ∙ (rw (targets_found es x ds found) at m)),
          tseen,
        ),
        λ d m. str_mem-head d x seen (mem_one d x m),
        λ y m. str_mem-tail y x seen (keeps y m),
      )
]

-- Every item of a topological order is accessible: no chain of dependencies goes on for ever.
Acc_of_IsTopological :
    (es : Edges) (xs : List String)
    → IsTopological es xs
    → (x : String) → str_mem x xs ≡ true
    → Acc (DependsOn es) x
Acc_of_IsTopological es [] t x m = cc
Acc_of_IsTopological es (y ∷ ys) t x m = elim (Bool-cases (str_eq x y)) [
  | inl same ↦
      let e : x ≡ y = (str_eq_iff x y).0 same in
      Acc.intro x (λ d dep. Acc_of_IsTopological es ys t.1 d (t.0 d (rw e at dep)))
  | inr other ↦ Acc_of_IsTopological es ys t.1 x (rw other at m)
]

-- A search over all items that ends normally has them in a topological order.
visit_all-IsTopological :
    (es : Edges) (out : List String)
    → visit_all es ≡ ok out
    → IsTopological es out × ((x : String) → str_mem x (keys es) ≡ true → str_mem x out ≡ true)
unfolding visit_all
visit_all-IsTopological es out h =
    let (t, covers, keeps) =
      visit_each-Extends es (visit (suc (length (keys es))) es [])
        (visit-Extends (suc (length (keys es))) es []) (sort_by str_lt (keys es)) [] out h tt in
    (t, λ x m. covers x (any-sort_by (str_eq x) str_lt (keys es) ∙ m))

-- If `_validate_acyclic` accepts a dependency graph, then every item of the graph is accessible
-- under the dependency relation.
pub validate_acyclic-Acc :
    (es : Edges)
    → validate_acyclic es ≡ ok tt
    → (x : String) → str_mem x (keys es) ≡ true
    → Acc (DependsOn es) x
unfolding validate_acyclic
validate_acyclic-Acc es h x m =
    let (out, run, _) = >>=-eq-ok (visit_all es) (λ v. ok tt) h in
    let (t, covers) = visit_all-IsTopological es out run in
    Acc_of_IsTopological es out t x (covers x m)
