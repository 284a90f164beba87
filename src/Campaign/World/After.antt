-- ===== src/Campaign/World/After.antt =====
-- What holds after an action, whether it returns or raises.
use agf_orchestrator.Base.{Bool, true, false, if◌then◌else◌, ◌≡◌, refl}
use agf_orchestrator.Base.Raise.{Error, Result, ok, raise as raised}
use agf_orchestrator.Campaign.World.{World, Exec, continue, raise_if}

abbrev pub After :
    {A : Type 0} → (A → World → Type 0) → (World → Type 0) → Result A × World → Type 0
After Q E (ok a, w) = Q a w
After Q E (raised e, w) = E w

module _ {A B : Type 0} (E : World → Type 0) where
  pub After-bind :
      (Q : A → World → Type 0) (R : B → World → Type 0) (r : Result A × World) (f : A → Exec B)
      → After Q E r
      → ((a : A) (w : World) → Q a w → After R E (f a w))
      → After R E (continue r f)
  After-bind Q R (ok a, w) f h k = k a w h
  After-bind Q R (raised e, w) f h k = h

  pub After-lift :
      (R : B → World → Type 0) (r : Result A) (w : World) (f : A → Exec B)
      → E w
      → ((a : A) → r ≡ ok a → After R E (f a w))
      → After R E (continue (r, w) f)
  After-lift R (ok a) w f h k = k a refl
  After-lift R (raised e) w f h k = h

module _ {A : Type 0} (E : World → Type 0) where
  pub After-if :
      (Q : A → World → Type 0) (b : Bool) (m n : Exec A) (w : World)
      → (b ≡ true → After Q E (m w))
      → (b ≡ false → After Q E (n w))
      → After Q E ((if b then m else n) w)
  After-if Q true m n w h k = h refl
  After-if Q false m n w h k = k refl

  pub After-raise_if :
      (Q : A → World → Type 0) (b : Bool) (e : Error) (w : World) (f : Unit {0} → Exec A)
      → E w
      → (b ≡ false → After Q E (f tt w))
      → After Q E (continue (raise_if b e w) f)
  After-raise_if Q true e w f h k = h
  After-raise_if Q false e w f h k = k refl

  pub After-weaken :
      (Q R : A → World → Type 0) (r : Result A × World)
      → ((a : A) (w : World) → Q a w → R a w)
      → After Q E r
      → After R E r
  After-weaken Q R (ok a, w) k h = k a w h
  After-weaken Q R (raised e, w) k h = h
