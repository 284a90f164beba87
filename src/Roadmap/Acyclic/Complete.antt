-- ===== src/Roadmap/Acyclic/Complete.antt =====
-- What the search answers on a graph whose dependencies are all in it, with the fuel that it is given.
use mathlib.Core.WellFounded.{Acc}
use agf_orchestrator.Base.{
  ℕ, zero, suc, ◌+◌, ◌<◌, ◌≡◌, refl, sym, subst, ◌∙◌, length, ◌↔◌, ◌⊎◌, inl, inr, true, false, some,
  List, [], ◌∷◌, String, arith, Bool-cases,
}
use agf_orchestrator.Base.Distinct.{length-le_of_distinct}
use agf_orchestrator.Base.Raise.{Result, ok, raise, roadmap_validation_error}
use agf_orchestrator.Base.Sort.{sort_by, any-sort_by}
use agf_orchestrator.Base.Text.{str_eq, str_eq_iff, str_eq_refl, str_lt, str_mem, str_distinct}
use agf_orchestrator.Roadmap.Acyclic.{
  Edges, edge_lookup, keys, visit_each, visit, visit_all, validate_acyclic,
}
use agf_orchestrator.Roadmap.Acyclic.Sound.{
  DependsOn, targets_found, edges_of_found, validate_acyclic-Acc,
}

-- Every dependency is an item of the graph.
abbrev pub IsClosed : Edges → Type 0
IsClosed es = (x d : String) → DependsOn es d x → str_mem d (keys es) ≡ true

-- `d` is reached from `x` by one dependency or more.
pub data Below (es : Edges) : String → String → Type 0 where
  one : {d x : String} → DependsOn es d x → Below es d x
  more : {d y x : String} → Below es d y → DependsOn es y x → Below es d x

Below-trans : (es : Edges) {a b c : String} → Below es a b → Below es b c → Below es a c
Below-trans es p (one dep) = more p dep
Below-trans es p (more q dep) = more (Below-trans es p q) dep

-- A cycle through an item goes through one of its dependencies.
cycle-Below :
    (es : Edges) {z x : String}
    → Below es z x
    → z ≡ x
    → (y : String) × DependsOn es y x × Below es y y
cycle-Below es {z} {x} (one dep) same = (z, dep, one (rw (← same) at dep))
cycle-Below es {x = x} (more {y = y} p dep) same =
    (y, dep, Below-trans es (one dep) (subst (λ w. Below es w y) same p))

-- An accessible item is on no cycle.
acyclic_of_Acc : (es : Edges) {x : String} → Acc (DependsOn es) x → Below es x x → ⊥
acyclic_of_Acc es (Acc.intro x smaller) b =
    let (y, dep, cycle) = cycle-Below es b refl in acyclic_of_Acc es (smaller y dep) cycle

-- The stack of a search: each item depends on the one above it.
abbrev IsChain : Edges → String → List String → Type 0
IsChain es x [] = Unit
IsChain es x (y ∷ ys) = DependsOn es x y × IsChain es y ys

IsChain-Below :
    (es : Edges) (x z : String) (ys : List String)
    → IsChain es x ys
    → str_mem z ys ≡ true
    → Below es x z
IsChain-Below es x z [] c m = cc
IsChain-Below es x z (y ∷ ys) c m = elim (Bool-cases (str_eq z y)) [
  | inl same ↦ let e : z ≡ y = (str_eq_iff z y).0 same in rw e (one c.0)
  | inr other ↦ Below-trans es (one c.0) (IsChain-Below es y z ys c.1 (rw other at m))
]

-- What a visit needs: a known item, and a stack of distinct known items that the fuel covers.
abbrev IsReady : ℕ → Edges → List String → String → Type 0
IsReady n es visiting x =
    (str_mem x (keys es) ≡ true)
    × IsChain es x visiting
    × (str_distinct visiting ≡ true)
    × ((z : String) → str_mem z visiting ≡ true → str_mem z (keys es) ≡ true)
    × (length (keys es) < n + length visiting)

lookup_known :
    (es : Edges) (x : String)
    → str_mem x (keys es) ≡ true
    → (ds : List String) × (edge_lookup x es ≡ some ds)
lookup_known [] x m = cc
lookup_known ((y, ds) ∷ es) x m = elim (Bool-cases (str_eq x y)) [
  | inl same ↦ (ds, rw same)
  | inr other ↦ let (r, found) = lookup_known es x (rw other at m) in (r, rw other found)
]

-- How a search may end on a closed graph: with the visited items, or with the cycle error, on a graph that has
-- a cycle.
abbrev Ends : Edges → Result (List String) → Type 0
Ends es result =
    ((out : List String) × (result ≡ ok out))
    ⊎ ((result ≡ raise (roadmap_validation_error "roadmap dependencies contain a cycle"))
        × (y : String) × (str_mem y (keys es) ≡ true)
        × Below es y y)

visit_each-Ends :
    (es : Edges) (f : List String → String → Result (List String)) (ds v : List String)
    → ((w : List String) (d : String) → str_mem d ds ≡ true → Ends es (f w d))
    → Ends es (visit_each f ds v)
unfolding visit_each
visit_each-Ends es f [] v ends = inl (v, refl)
visit_each-Ends es f (d ∷ ds) v ends = elim (ends v d (ground (arith, str_eq_refl d))) [
  | inr (cyclic, y, known, cycle) ↦ inr (rw cyclic, y, known, cycle)
  | inl (w, first) ↦ rw first (visit_each-Ends es f ds w (λ u c m. ends u c (ground arith)))
]

ready :
    (es : Edges)
    → IsClosed es
    → (n : ℕ) (visiting : List String) (x : String) (ds : List String)
    → IsReady (suc n) es visiting x
    → str_mem x visiting ≡ false
    → edge_lookup x es ≡ some ds
    → (d : String) → str_mem d ds ≡ true
    → IsReady n es (x ∷ visiting) d
ready es closed n visiting x ds r fresh found d m =
    let dep : DependsOn es d x = rw (targets_found es x ds found) m in
    (
      closed x d dep,
      (dep, r.1),
      ground arith,
      λ z k. elim (Bool-cases (str_eq z x)) [
        | inl same ↦ let e : z ≡ x = (str_eq_iff z x).0 same in rw e r.0
        | inr other ↦ r.3 z (rw other at k)
      ],
      omega arith,
    )

-- A visit never runs out of fuel.
visit-Ends :
    (es : Edges) (closed : IsClosed es) (n : ℕ) (visiting v : List String) (x : String)
    → IsReady n es visiting x
    → Ends es (visit n es visiting v x)
unfolding visit
visit-Ends es closed zero visiting v x r =
    absurd (omega (arith, length-le_of_distinct visiting (keys es) r.2 r.3))
visit-Ends es closed (suc n) visiting v x r = elim (Bool-cases (str_mem x visiting)) [
  | inl cyclic ↦ inr (rw cyclic, x, r.0, IsChain-Below es x x visiting r.1 cyclic)
  | inr fresh ↦ elim (Bool-cases (str_mem x v)) [
    | inl seen ↦ inl (v, rw (fresh, seen))
    | inr unseen ↦
        let (ds, found) = lookup_known es x r.0 in
        let each = visit_each-Ends es (visit n es (x ∷ visiting)) (sort_by str_lt ds) v (λ w d m.
          visit-Ends es closed n (x ∷ visiting) w d (
            ready es closed n visiting x ds r fresh found d
              (sym (any-sort_by (str_eq d) str_lt ds) ∙ m))) in
        elim each [
          | inl (seen, visits) ↦
              inl (x ∷ seen, rw (fresh, unseen, edges_of_found es x ds found, visits))
          | inr (failed, y, known, cycle) ↦
              inr (rw (fresh, unseen, edges_of_found es x ds found, failed), y, known, cycle)
        ]
  ]
]

visit_all-Ends : (es : Edges) → IsClosed es → Ends es (visit_all es)
unfolding visit_all
visit_all-Ends es closed =
    visit_each-Ends es (visit (suc (length (keys es))) es []) (sort_by str_lt (keys es)) [] λ w d m.
      visit-Ends es closed (suc (length (keys es))) [] w d
        ((sym (any-sort_by (str_eq d) str_lt (keys es)) ∙ m), tt, refl, λ z k. cc, omega arith)

-- No item of the graph is below itself.
abbrev pub IsAcyclic : Edges → Type 0
IsAcyclic es = (x : String) → str_mem x (keys es) ≡ true → Below es x x → ⊥

-- On dependencies that all name items, the depth-first search of `_validate_acyclic` accepts exactly if no
-- item is below itself, and raises `roadmap dependencies contain a cycle` exactly if some item is below
-- itself. One of the two always happens, so that its fuel never runs out.
pub validate_acyclic_iff :
    (es : Edges)
    → IsClosed es
    → ((validate_acyclic es ≡ ok tt) ↔ IsAcyclic es)
      × ((validate_acyclic es
            ≡ raise (roadmap_validation_error "roadmap dependencies contain a cycle"))
          ↔ ((x : String) × (str_mem x (keys es) ≡ true) × Below es x x))
unfolding validate_acyclic
validate_acyclic_iff es closed = (
  (
    accepted,
    λ acyclic. elim (visit_all-Ends es closed) [
      | inl (out, run) ↦ rw run
      | inr (_, y, known, cycle) ↦ absurd (acyclic y known cycle)
    ],
  ),
  (
    λ refused. elim (visit_all-Ends es closed) [
      | inl (out, run) ↦ let k = rw run at refused in absurd (cc)
      | inr (_, y, known, cycle) ↦ (y, known, cycle)
    ],
    λ (x, known, cycle). elim (visit_all-Ends es closed) [
      | inl (out, run) ↦ absurd (accepted (rw run) x known cycle)
      | inr (failed, _, _, _) ↦ rw failed
    ],
  ),
)
  where
    accepted : validate_acyclic es ≡ ok tt → IsAcyclic es
    accepted h x m = acyclic_of_Acc es (validate_acyclic-Acc es h x m)
