-- ===== src/Tests/Scopes.antt =====
-- The path check (src/agf_orchestrator/path_scope.py) on concrete inputs.
use agf_orchestrator.Base.{String, ◌≡◌, refl, true, false, List, [], ◌∷◌, All, ◌↔◌}
use agf_orchestrator.Base.Text.{codes, str_mem, starts_with, is_space}
use agf_orchestrator.Scope.{valid_relative, scope_is_valid, path_in_scope, paths_in_scope, parts}
use agf_orchestrator.Scope.Parts.{IsPart, IsBelow, path_in_scope_iff}

abbrev scope : List String
scope = "README.md" ∷ "src/core/" ∷ []

below : paths_in_scope ("src/core/a.py" ∷ "README.md" ∷ []) scope ≡ true
unfolding paths_in_scope is_space starts_with
below = refl

sibling : path_in_scope "src/core_tools/a.py" scope ≡ false
unfolding path_in_scope is_space starts_with
sibling = refl

climbing : path_in_scope "src/core/../a.py" scope ≡ false
unfolding path_in_scope is_space starts_with
climbing = refl

-- The directory of a scope is not itself in scope.
directory : path_in_scope "src/core" scope ≡ false
unfolding path_in_scope is_space starts_with
directory = refl

path_in_scope_iff_example : (path_in_scope "src/core/a.py" scope ≡ true) ↔ (
    (valid_relative (codes "src/core/a.py") ≡ true)
    × (scope_is_valid scope ≡ true)
    × All IsPart (parts (codes "src/core/a.py"))
    × (a : String) × (str_mem a scope ≡ true)
    × IsBelow "src/core/a.py" a)
path_in_scope_iff_example = path_in_scope_iff "src/core/a.py" scope
