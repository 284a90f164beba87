-- ===== src/Roadmap/Acyclic.antt =====
-- `Roadmap._validate_acyclic`: the depth-first search for a dependency cycle.
pub mod Sound
pub mod Complete
use agf_orchestrator.Base.{
  ℕ, zero, suc, Bool, Option, none, some, List, [], ◌∷◌, String, length, map, if◌then◌else◌, true,
}
use agf_orchestrator.Base.Raise.{
  Result, ok, raise, roadmap_validation_error, key_error, recursion_error, ◌>>=◌, ◌>>◌,
}
use agf_orchestrator.Base.Sort.{sort_by}
use agf_orchestrator.Base.Text.{str_eq, str_lt, str_mem}

-- The dict from an item to the set of its dependencies.
abbrev pub Edges : Type 0
Edges = List (String × List String)

abbrev pub edge_lookup : String → Edges → Option (List String)
edge_lookup x [] = none
edge_lookup x ((y, ds) ∷ es) = let rest = edge_lookup x es in if str_eq x y then some ds else rest

-- `edges[item_id]`
abbrev pub edges_of : Edges → String → Result (List String)
edges_of es x = elim (edge_lookup x es) [ none ↦ raise (key_error x) | some ds ↦ ok ds ]

abbrev pub keys : Edges → List String
keys es = map (λ (e : String × List String). e.0) es

-- `for dependency in …: visit(dependency)`, on the set of visited items.
unfoldable pub visit_each :
    (List String → String → Result (List String)) → List String → List String → Result (List String)
visit_each visit [] visited = ok visited
visit_each visit (d ∷ ds) visited = visit visited d >>= λ seen. visit_each visit ds seen

-- `visit`, with the stack of items being visited. The fuel is the depth of the recursion.
unfoldable pub visit : ℕ → Edges → List String → List String → String → Result (List String)
visit zero es visiting visited x = raise (recursion_error "maximum recursion depth exceeded")
visit (suc n) es visiting visited x =
    if str_mem x visiting
    then raise (roadmap_validation_error "roadmap dependencies contain a cycle")
    else if str_mem x visited
    then ok visited
    else (edges_of es x >>= λ ds.
        visit_each (visit n es (x ∷ visiting)) (sort_by str_lt ds) visited >>= λ seen.
        ok (x ∷ seen))

-- `_validate_acyclic`, with the set of visited items that it ends with.
unfoldable pub visit_all : Edges → Result (List String)
unfolding visit visit_each
visit_all es = visit_each (visit (suc (length (keys es))) es []) (sort_by str_lt (keys es)) []

unfoldable pub validate_acyclic : Edges → Result (Unit {0})
unfolding visit_all
validate_acyclic es = visit_all es >>= λ visited. ok tt
