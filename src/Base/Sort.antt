-- ===== src/Base/Sort.antt =====
-- Python's `sorted`: a stable sort by a strict order on keys.
use mathlib.Core.Path.{◌≡◌, refl, ◌∙◌, ap}
use mathlib.Core.Bool.{Bool, true, ◌||◌, not}
use mathlib.Core.List.{List, [], ◌∷◌}
use mathlib.Core.Logic.{inl, inr}
use native.Mathlib.Omega.{arith}
use agf_orchestrator.Base.Tests.{if◌then◌else◌, Bool-cases}
use agf_orchestrator.Base.Lists.{any, all, All, keep}

module _ {ℓ} {A : Type ℓ} where
  abbrev pub insert_by : (A → A → Bool) → A → List A → List A
  insert_by lt x [] = x ∷ []
  insert_by lt x (y ∷ ys) = let rest = insert_by lt x ys in if lt y x then y ∷ rest else x ∷ y ∷ ys

  abbrev pub sort_by : (A → A → Bool) → List A → List A
  sort_by lt [] = []
  sort_by lt (x ∷ xs) = insert_by lt x (sort_by lt xs)

  any-insert_by :
      (p : A → Bool) (lt : A → A → Bool) (x : A) (ys : List A)
      → any p (insert_by lt x ys) ≡ (p x || any p ys)
  any-insert_by p lt x [] = refl
  any-insert_by p lt x (y ∷ ys) = ground (arith, any-insert_by p lt x ys)

  -- Sorting keeps the elements.
  pub any-sort_by :
      (p : A → Bool) (lt : A → A → Bool) (xs : List A) → any p (sort_by lt xs) ≡ any p xs
  any-sort_by p lt [] = refl
  any-sort_by p lt (x ∷ xs) =
      any-insert_by p lt x (sort_by lt xs) ∙ ap (λ b. p x || b) (any-sort_by p lt xs)

  -- No element stands behind one that is greater.
  abbrev pub IsSorted : (A → A → Bool) → List A → Type 0
  IsSorted lt [] = Unit
  IsSorted lt (x ∷ xs) = (all (λ y. not (lt y x)) xs ≡ true) × IsSorted lt xs

module _ {ℓ κ} {A : Type ℓ} (P : A → Type κ) where
  All-insert_by :
      (lt : A → A → Bool) (x : A) (ys : List A) → P x → All P ys → All P (insert_by lt x ys)
  All-insert_by lt x [] px ps = (px, tt)
  All-insert_by lt x (y ∷ ys) px ps = elim (Bool-cases (lt y x)) [
    | inl before ↦ rw before (ps.0, All-insert_by lt x ys px ps.1)
    | inr after ↦ rw after (px, ps)
  ]

  pub All-sort_by : (lt : A → A → Bool) (xs : List A) → All P xs → All P (sort_by lt xs)
  All-sort_by lt [] ps = tt
  All-sort_by lt (x ∷ xs) ps = All-insert_by lt x (sort_by lt xs) ps.0 (All-sort_by lt xs ps.1)

  pub All-keep : (p : A → Bool) (xs : List A) → All P xs → All P (keep p xs)
  All-keep p [] ps = tt
  All-keep p (x ∷ xs) ps = elim (Bool-cases (p x)) [
    | inl kept ↦ rw kept (ps.0, All-keep p xs ps.1)
    | inr dropped ↦ rw dropped (All-keep p xs ps.1)
  ]
