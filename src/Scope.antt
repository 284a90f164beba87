-- ===== src/Scope.antt =====
-- The lexical check of a changed path against the paths that a task may change
-- (src/agf_orchestrator/path_scope.py). The code points of a text are the values that `_valid_relative` reads.
pub mod Parts
use agf_orchestrator.Base.{
  ℕ, String, Bool, true, false, not, ◌&&◌, Option, none, some, List, [], ◌∷◌, length, all, any,
  get_last?, if◌then◌else◌, ◌==◌,
}
use agf_orchestrator.Base.Text.{codes, is_space, after, starts_with, str_eq}

-- Equality of two sequences of code points.
abbrev pub codes_eq : List ℕ → List ℕ → Bool
codes_eq [] [] = true
codes_eq [] (d ∷ ds) = false
codes_eq (c ∷ cs) [] = false
codes_eq (c ∷ cs) (d ∷ ds) = c == d && codes_eq cs ds

-- `s.lstrip()` and `s.rstrip()`
abbrev strip_left : List ℕ → List ℕ
strip_left [] = []
strip_left (c ∷ cs) = let rest = strip_left cs in if is_space c then rest else c ∷ cs

abbrev strip_right : List ℕ → List ℕ
strip_right [] = []
strip_right (c ∷ cs) =
    let rest = strip_right cs in if is_space c && length rest == 0 then [] else c ∷ rest

-- The first part of `value.split("/")`, and the parts after it.
abbrev pub split_from : List ℕ → List ℕ × List (List ℕ)
split_from [] = ([], [])
split_from (c ∷ cs) =
    let rest = split_from cs in if c == b'/' then ([], rest.0 ∷ rest.1) else (c ∷ rest.0, rest.1)

-- `value.split("/")`
abbrev pub parts : List ℕ → List (List ℕ)
parts cs = let split = split_from cs in split.0 ∷ split.1

-- `{"", ".", "..", ".git"}`
abbrev pub refused_parts : List String
refused_parts = "" ∷ "." ∷ ".." ∷ ".git" ∷ []

abbrev pub is_part : List ℕ → Bool
is_part part = not (any (λ refused. codes_eq part (codes refused)) refused_parts)

abbrev has_code : ℕ → List ℕ → Bool
has_code c = any (λ d. c == d)

-- `_valid_relative`
unfoldable pub valid_relative : List ℕ → Bool
valid_relative value =
    not (length value == 0)
    && codes_eq value (strip_right (strip_left value))
    && not (has_code b'\\' value)
    && not (has_code b':' value)
    && not (has_code 0 value)
    && all is_part (parts value)

-- `allowed.endswith("/")`
abbrev pub is_directory : String → Bool
is_directory allowed = elim (get_last? (codes allowed)) [ none ↦ false | some c ↦ c == b'/' ]

-- `value[:-1]`
abbrev pub drop_last : List ℕ → List ℕ
drop_last [] = []
drop_last (c ∷ []) = []
drop_last (c ∷ d ∷ cs) = c ∷ drop_last (d ∷ cs)

-- An entry of a scope without the slash that marks a directory.
abbrev pub entry : String → List ℕ
entry allowed = if is_directory allowed then drop_last (codes allowed) else codes allowed

-- `scope_is_valid`
unfoldable pub scope_is_valid : List String → Bool
unfolding valid_relative
scope_is_valid allowed_paths =
    not (length allowed_paths == 0) && all (λ allowed. valid_relative (entry allowed)) allowed_paths

-- The test of one entry in `path_in_scope`.
abbrev pub covers : String → String → Bool
covers path allowed = if is_directory allowed then starts_with path allowed else str_eq path allowed

-- `path_in_scope`
unfoldable pub path_in_scope : String → List String → Bool
unfolding valid_relative scope_is_valid
path_in_scope path allowed_paths =
    if not (valid_relative (codes path))
    then false
    else if not (scope_is_valid allowed_paths)
    then false
    else any (covers path) allowed_paths

-- `paths_in_scope`
unfoldable pub paths_in_scope : List String → List String → Bool
unfolding path_in_scope
paths_in_scope paths allowed_paths =
    not (length allowed_paths == 0) && all (λ path. path_in_scope path allowed_paths) paths
