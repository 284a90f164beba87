-- ===== src/Base/Order.antt =====
-- The order of texts, and what `sorted` returns under an order.
use Prim.Native.Nat.{ℕ, Ordering}
use Prim.Native.String.{String}
use mathlib.Core.Path.{◌≡◌, refl}
use mathlib.Core.Logic.{inl, inr}
use mathlib.Core.Bool.{Bool, true, false, not}
use mathlib.Core.List.{List, [], ◌∷◌}
use native.Mathlib.Omega.{arith}
use agf_orchestrator.Base.Tests.{Bool-cases, if◌then◌else◌}
use agf_orchestrator.Base.Lists.{all}
use agf_orchestrator.Base.Sort.{insert_by, sort_by, IsSorted}
use agf_orchestrator.Base.Text.{codes, codes_compare, str_lt, str_mem}

abbrev codes_lt : List ℕ → List ℕ → Bool
codes_lt xs ys = elim (codes_compare xs ys) [ Ordering.lt ↦ true | _ ↦ false ]

codes_lt_asym : (xs ys : List ℕ) → codes_lt xs ys ≡ true → codes_lt ys xs ≡ false
codes_lt_asym [] [] h = refl
codes_lt_asym [] (y ∷ ys) h = refl
codes_lt_asym (x ∷ xs) [] h = cc
codes_lt_asym (x ∷ xs) (y ∷ ys) h = ground (arith, codes_lt_asym xs ys)

codes_lt_split :
    (xs ys zs : List ℕ) → codes_lt xs ys ≡ false → codes_lt ys zs ≡ false → codes_lt xs zs ≡ false
codes_lt_split xs ys [] h k = elim-nil xs
  where
    elim-nil : (l : List ℕ) → codes_lt l [] ≡ false
    elim-nil [] = refl
    elim-nil (x ∷ l) = refl
codes_lt_split xs [] (z ∷ zs) h k = cc
codes_lt_split [] (y ∷ ys) (z ∷ zs) h k = cc
codes_lt_split (x ∷ xs) (y ∷ ys) (z ∷ zs) h k = ground (arith, codes_lt_split xs ys zs)

pub str_lt_asym : (s t : String) → str_lt s t ≡ true → str_lt t s ≡ false
unfolding str_lt
str_lt_asym s t h = codes_lt_asym (codes s) (codes t) h

-- What is not before a text that is not before a third is not before the third.
pub str_lt_split : (s t u : String) → str_lt s t ≡ false → str_lt t u ≡ false → str_lt s u ≡ false
unfolding str_lt
str_lt_split s t u h k = codes_lt_split (codes s) (codes t) (codes u) h k

module _ {ℓ} {A : Type ℓ} (lt : A → A → Bool) (asym : (x y : A) → lt x y ≡ true → lt y x ≡ false)
    (split : (x y z : A) → lt x y ≡ false → lt y z ≡ false → lt x z ≡ false) where
  all_after_insert :
      (w x : A) (ys : List A)
      → lt x w ≡ false
      → all (λ y. not (lt y w)) ys ≡ true
      → all (λ y. not (lt y w)) (insert_by lt x ys) ≡ true
  all_after_insert w x [] h k = ground arith
  all_after_insert w x (y ∷ ys) h k = ground (arith, all_after_insert w x ys h)

  all_after_first :
      (x y : A) (ys : List A)
      → lt y x ≡ false
      → all (λ z. not (lt z y)) ys ≡ true
      → all (λ z. not (lt z x)) ys ≡ true
  all_after_first x y [] h k = refl
  all_after_first x y (z ∷ ys) h k = ground (arith, split z y x, all_after_first x y ys h)

  IsSorted-insert_by : (x : A) (ys : List A) → IsSorted lt ys → IsSorted lt (insert_by lt x ys)
  IsSorted-insert_by x [] s = (refl, tt)
  IsSorted-insert_by x (y ∷ ys) s = elim (Bool-cases (lt y x)) [
    | inl before ↦
        rw before (all_after_insert y x ys (asym y x before) s.0, IsSorted-insert_by x ys s.1)
    | inr after ↦ rw (after, after) (all_after_first x y ys after s.0, s)
  ]

  -- `sorted` puts no element behind a greater one.
  pub IsSorted-sort_by : (xs : List A) → IsSorted lt (sort_by lt xs)
  IsSorted-sort_by [] = tt
  IsSorted-sort_by (x ∷ xs) = IsSorted-insert_by x (sort_by lt xs) (IsSorted-sort_by xs)

-- `set(xs)`
abbrev pub set_of : List String → List String
set_of [] = []
set_of (x ∷ xs) = let rest = set_of xs in if str_mem x xs then rest else x ∷ rest

-- `tuple(sorted(set(xs)))`
unfoldable pub sorted_set : List String → List String
sorted_set xs = sort_by str_lt (set_of xs)
