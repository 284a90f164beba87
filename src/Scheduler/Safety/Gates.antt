-- ===== src/Scheduler/Safety/Gates.antt =====
-- When the safety gates stop the scheduler.
use mathlib.Core.List.{reverse}
use agf_orchestrator.Base.{
  ℕ, zero, suc, ◌≡◌, ◌↔◌, refl, ap, ◌∙◌, Bool, true, false, not, ◌&&◌, ◌||◌, List, [], ◌∷◌, arith,
  length, leb, all, any, keep, take, if◌then◌else◌,
}
use agf_orchestrator.Base.Int.{ℤ, pos, negsuc, leb_ℤ, pos_part}
use agf_orchestrator.Base.Raise.{ok}
use agf_orchestrator.Base.Sort.{any-sort_by}
use agf_orchestrator.Roadmap.Models as Roadmaps
use agf_orchestrator.Roadmap.Models.{
  Roadmap, RoadmapItem, RoadmapItemStatus, item_status_is, is_empty,
}
use agf_orchestrator.Roadmap.Lifecycle.{key_lt}
use agf_orchestrator.Roadmap.Eligible.{is_eligible, eligible_of, eligible_items_lem}
use agf_orchestrator.Scheduler.Models.{SchedulerStatus, status_is}
use agf_orchestrator.Scheduler.Safety.{
  SafetyStatus, proceed, completed, blocked, ProgressObservation, SafetyDecision, same_fingerprint,
  count_stalled, is_finished, assess_current, assess_progress, is_unfinished, assess_items,
  assess_roadmap, invalid_observation,
}

-- The count reaches `k` exactly when the last `k` observations exist and have one fingerprint.
leb-count_stalled :
    (k : ℕ) (c : ProgressObservation) (os : List ProgressObservation)
    → leb k (count_stalled c os)
      ≡ (leb k (length os) && all (λ o. same_fingerprint o c) (take k os))
unfolding count_stalled
leb-count_stalled zero c [] = ground arith
leb-count_stalled zero c (o ∷ os) = ground arith
leb-count_stalled (suc k) c [] = ground arith
leb-count_stalled (suc k) c (o ∷ os) = ground (arith, leb-count_stalled k c os)

-- A status on which the gate looks at the observations before.
abbrev pub is_live : SchedulerStatus → Bool
is_live s = not (status_is s SchedulerStatus.human_required || is_finished s)

-- The last `max_stalls` observations are there and do not differ.
abbrev pub is_stalled : ProgressObservation → List ProgressObservation → ℤ → Bool
is_stalled current reversed max_stalls =
    leb (pos_part max_stalls) (length reversed)
    && all (λ o. same_fingerprint o current) (take (pos_part max_stalls) reversed)

assess_current_blocked :
    (current : ProgressObservation) (os : List ProgressObservation) (m : ℤ)
    → leb_ℤ (pos 1) m ≡ true
    → ((assess_current current os m).status ≡ blocked)
      ↔ ((is_live current.status && is_stalled current os m) ≡ true)
unfolding assess_current
assess_current_blocked current os (negsuc n) h = ground arith
assess_current_blocked current os (pos n) h = ground (arith, leb-count_stalled n current os)

-- On non-empty valid observations, `assess_progress` with a limit of 1 to 100 answers; it answers BLOCKED
-- exactly if the last status is no terminal one and not HUMAN_REQUIRED, and the last `max_stalls`
-- observations are there and have one fingerprint.
pub assess_progress_blocked :
    (observations earlier : List ProgressObservation) (current : ProgressObservation)
    (max_stalls : ℤ)
    → reverse observations ≡ current ∷ earlier
    → any invalid_observation observations ≡ false
    → (leb_ℤ (pos 1) max_stalls && leb_ℤ max_stalls (pos 100)) ≡ true
    → (d : SafetyDecision) × (assess_progress observations max_stalls ≡ ok d)
      × ((d.status ≡ blocked)
          ↔ ((is_live current.status && is_stalled current (current ∷ earlier) max_stalls) ≡ true))
unfolding assess_progress
assess_progress_blocked [] earlier current m r valid fits = absurd (cc)
assess_progress_blocked (o ∷ os) earlier current m r valid fits = (
  assess_current current (current ∷ earlier) m,
  rw (fits, valid, r) refl,
  assess_current_blocked current (current ∷ earlier) m (ground arith),
)

abbrev pub is_ready : RoadmapItem → Bool
is_ready i = item_status_is i.status RoadmapItemStatus.ready

is_empty-any : {A : Type 0} (xs : List A) → is_empty xs ≡ not (any (λ _. true) xs)
is_empty-any [] = refl
is_empty-any (x ∷ xs) = refl

any-keep :
    {A : Type 0} (p q : A → Bool) (xs : List A) → any q (keep p xs) ≡ any (λ x. p x && q x) xs
any-keep p q [] = refl
any-keep p q (x ∷ xs) = ground (arith, any-keep p q xs)

any_mono :
    {A : Type 0} (p q : A → Bool) (xs : List A)
    → ((x : A) → p x ≡ true → q x ≡ true)
    → any p xs ≡ true
    → any q xs ≡ true
any_mono p q [] f h = cc
any_mono p q (x ∷ xs) f h = ground (arith, f x, any_mono p q xs f)

any-cong : {A : Type 0} (p q : A → Bool) (xs : List A) → ((x : A) → p x ≡ q x) → any p xs ≡ any q xs
any-cong p q [] f = refl
any-cong p q (x ∷ xs) f = ground (arith, f x, any-cong p q xs f)

is_empty-eligible_of :
    (r : Roadmap) → is_empty (eligible_of r) ≡ not (any (is_eligible r.items) r.items)
is_empty-eligible_of r =
    is_empty-any (eligible_of r)
    ∙ ap not (
        any-sort_by (λ _. true) key_lt (keep (is_eligible r.items) r.items)
        ∙ any-keep (is_eligible r.items) (λ _. true) r.items
        ∙ any-cong (λ i. is_eligible r.items i && true) (is_eligible r.items) r.items
            (λ i. ground arith))

-- A stop decision by description: of the items that are unfinished, ready and eligible.
abbrev verdict : Bool → Bool → Bool → SafetyStatus
verdict unfinished ready eligible =
    if eligible
    then proceed
    else if not unfinished
    then completed
    else if ready
    then blocked
    else proceed

assess_items_by :
    (items eligible : List RoadmapItem) (u r e : Bool)
    → is_empty (keep is_unfinished items) ≡ not u
    → any is_ready (keep is_unfinished items) ≡ r
    → is_empty eligible ≡ not e
    → (assess_items items eligible).status ≡ verdict u r e
unfolding assess_items
assess_items_by items eligible u r e hu hr he = ground arith

by_verdict :
    (u r e : Bool)
    → (r ≡ true → u ≡ true)
    → (e ≡ true → r ≡ true)
    → (s : SafetyStatus) → s ≡ verdict u r e
    → ((s ≡ completed) ↔ (u ≡ false)) × ((s ≡ blocked) ↔ ((r ≡ true) × (e ≡ false)))
by_verdict u r e ru er s h = ground arith

assess_items-verdict :
    (r : Roadmap)
    → (assess_items r.items (eligible_of r)).status
      ≡ verdict
          (any is_unfinished r.items)
          (any is_ready r.items)
          (any (is_eligible r.items) r.items)
unfolding assess_items
assess_items-verdict r =
    let none_left =
      is_empty-any (keep is_unfinished r.items)
      ∙ ap not (
          any-keep is_unfinished (λ _. true) r.items
          ∙ any-cong (λ i. is_unfinished i && true) is_unfinished r.items (λ i. ground arith)) in
    let ready_left =
      any-keep is_unfinished is_ready r.items
      ∙ any-cong (λ i. is_unfinished i && is_ready i) is_ready r.items (λ i. ground arith) in
    assess_items_by r.items (eligible_of r) (any is_unfinished r.items) (any is_ready r.items)
      (any (is_eligible r.items) r.items) none_left ready_left (is_empty-eligible_of r)

-- On a roadmap that validates, `assess_roadmap` answers: COMPLETED exactly if no item is unfinished, and
-- BLOCKED exactly if some item is READY and none is READY with all of its dependencies COMPLETED.
pub assess_roadmap_lem :
    (r : Roadmap)
    → Roadmaps.validate r ≡ ok tt
    → (d : SafetyDecision) × (assess_roadmap r ≡ ok d)
      × ((d.status ≡ completed) ↔ (any is_unfinished r.items ≡ false))
      × ((d.status ≡ blocked)
          ↔ ((any is_ready r.items ≡ true) × (any (is_eligible r.items) r.items ≡ false)))
unfolding assess_roadmap
assess_roadmap_lem r valid =
    let found = eligible_items_lem r valid in
    let ready_unfinished = any_mono is_ready is_unfinished r.items (λ i. ground arith) in
    let eligible_ready = any_mono (is_eligible r.items) is_ready r.items (λ i. ground arith) in
    let same = assess_items-verdict r in
    let (finished, stopped) =
      by_verdict (any is_unfinished r.items) (any is_ready r.items)
        (any (is_eligible r.items) r.items) ready_unfinished eligible_ready
        (assess_items r.items (eligible_of r)).status same in
    (assess_items r.items (eligible_of r), rw (valid, found) refl, finished, stopped)
