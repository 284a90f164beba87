-- ===== src/Base/Distinct.antt =====
-- Distinct texts: counting by the pigeonhole principle.
use agf_orchestrator.Base.Tests.{if◌then◌else◌, Bool-cases}
use agf_orchestrator.Base.Lists.{length}
use agf_orchestrator.Base.Text.{str_eq, str_eq_iff, str_eq_refl, str_mem, str_distinct}
use Prim.Native.Nat.{suc, ◌≤◌}
use Prim.Native.String.{String}
use mathlib.Core.Path.{◌≡◌}
use mathlib.Core.Logic.{inl, inr}
use mathlib.Core.Bool.{true, false}
use mathlib.Core.List.{List, [], ◌∷◌}
use native.Mathlib.Omega.{arith}

-- A list without the first occurrence of a text.
abbrev without : String → List String → List String
without x [] = []
without x (y ∷ ys) = let rest = without x ys in if str_eq x y then ys else y ∷ rest

length-without :
    (x : String) (ys : List String) → str_mem x ys ≡ true → suc (length (without x ys)) ≡ length ys
length-without x [] m = cc
length-without x (y ∷ ys) m = ground (arith, length-without x ys)

mem-without :
    (x z : String) (ys : List String)
    → str_mem z ys ≡ true
    → str_eq x z ≡ false
    → str_mem z (without x ys) ≡ true
mem-without x z [] m ne = cc
mem-without x z (y ∷ ys) m ne =
    ground (arith, mem-without x z ys, str_eq_iff x y, str_eq_iff z y, str_eq_iff x z)

-- Distinct texts that all stand in a list are no more than the list holds.
pub length-le_of_distinct :
    (xs ys : List String)
    → str_distinct xs ≡ true
    → ((z : String) → str_mem z xs ≡ true → str_mem z ys ≡ true)
    → length xs ≤ length ys
length-le_of_distinct [] ys d sub = omega arith
length-le_of_distinct (x ∷ xs) ys d sub = omega (
  arith,
  length-le_of_distinct xs (without x ys) (ground arith) inside,
  length-without x ys (sub x (ground (arith, str_eq_refl x))),
)
  where
    apart : (z : String) → str_mem z xs ≡ true → str_eq x z ≡ false
    apart z m = elim (Bool-cases (str_eq x z)) [
      | inl same ↦ let e : x ≡ z = (str_eq_iff x z).0 same in let n = rw (← e) at m in ground arith
      | inr other ↦ other
    ]

    inside : (z : String) → str_mem z xs ≡ true → str_mem z (without x ys) ≡ true
    inside z m = mem-without x z ys (sub z (ground arith)) (apart z m)
