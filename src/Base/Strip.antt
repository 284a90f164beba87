-- ===== src/Base/Strip.antt =====
-- `s.strip()` as a text, and `part in s`.
use Prim.Native.Nat.{ℕ}
use Prim.Native.Char.{code}
use Prim.Native.String.{String}
use mathlib.Core.Bool.{Bool, true, false, ◌&&◌, ◌||◌, not}
use mathlib.Core.Option.{none, some}
use mathlib.Core.List.{List, [], ◌∷◌}
use agf_orchestrator.Base.Tests.{if◌then◌else◌}
use agf_orchestrator.Base.Text.{codes, is_space, is_nonempty, after}

strip_left : String → String
strip_left String.[] = String.[]
strip_left (String.◌∷◌ c s) =
    let rest = strip_left s in if is_space (code c) then rest else String.◌∷◌ c s

strip_right : String → String
strip_right String.[] = String.[]
strip_right (String.◌∷◌ c s) =
    let rest = strip_right s in
    if is_space (code c) && not (is_nonempty rest) then String.[] else String.◌∷◌ c rest

-- `s.strip()`
unfoldable pub strip : String → String
unfolding strip_left strip_right is_space is_nonempty
strip s = strip_right (strip_left s)

starts : List ℕ → List ℕ → Bool
starts part cs = elim (after part cs) [ none ↦ false | some _ ↦ true ]

contains_from : List ℕ → List ℕ → Bool
unfolding starts
contains_from part [] = starts part []
contains_from part (c ∷ cs) = starts part (c ∷ cs) || contains_from part cs

-- `part in s`
unfoldable pub contains : String → String → Bool
unfolding contains_from
contains part s = contains_from (codes part) (codes s)
