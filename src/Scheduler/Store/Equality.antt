-- ===== src/Scheduler/Store/Equality.antt =====
-- The field by field comparison of two scheduler states is their equality.
use agf_orchestrator.Base.{
  ◌≡◌, refl, ◌↔◌, true, and_true, Option, none, some, List, [], ◌∷◌, String, arith,
}
use agf_orchestrator.Base.Int.{≡→eq_ℤ, eq_ℤ→≡}
use agf_orchestrator.Base.Text.{str_eq_iff, str_eq_refl}
use agf_orchestrator.Scheduler.Models.{SchedulerState, SchedulerStatus, status_is}
use agf_orchestrator.Scheduler.Safety.{option_eq}
use agf_orchestrator.Scheduler.Store.{texts_eq, state_eq}

pub status_is_refl : (a : SchedulerStatus) → status_is a a ≡ true
status_is_refl SchedulerStatus.created = refl
status_is_refl _ = refl

option_eq_iff : (a b : Option String) → (option_eq a b ≡ true) ↔ (a ≡ b)
option_eq_iff none none = (λ _. refl, λ _. refl)
option_eq_iff (some a) (some b) = ground (arith, str_eq_iff a b)
option_eq_iff none (some b) = (λ h. cc, λ h. cc)
option_eq_iff (some a) none = (λ h. cc, λ h. cc)

texts_eq_iff : (a b : List String) → (texts_eq a b ≡ true) ↔ (a ≡ b)
texts_eq_iff [] [] = (λ _. refl, λ _. refl)
texts_eq_iff (x ∷ xs) (y ∷ ys) = ground (arith, str_eq_iff x y, texts_eq_iff xs ys)
texts_eq_iff [] (y ∷ ys) = (λ h. cc, λ h. cc)
texts_eq_iff (x ∷ xs) [] = (λ h. cc, λ h. cc)

pub state_eq_refl : (s : SchedulerState) → state_eq s s ≡ true
unfolding state_eq
state_eq_refl s = ground (
  arith,
  str_eq_refl s.schema_version,
  str_eq_refl s.scheduler_id,
  str_eq_refl s.project_id,
  str_eq_refl s.roadmap_id,
  str_eq_refl s.roadmap_version,
  status_is_refl s.status,
  (option_eq_iff s.current_item_id s.current_item_id).1 refl,
  str_eq_refl s.created_at,
  str_eq_refl s.updated_at,
  (option_eq_iff s.lease_owner s.lease_owner).1 refl,
  (option_eq_iff s.lease_expires_at s.lease_expires_at).1 refl,
  ≡→eq_ℤ s.budget_limit s.budget_limit refl,
  ≡→eq_ℤ s.budget_used s.budget_used refl,
  (texts_eq_iff s.blocking_issues s.blocking_issues).1 refl,
  (texts_eq_iff s.required_human_actions s.required_human_actions).1 refl,
  ≡→eq_ℤ s.event_sequence s.event_sequence refl,
)

pub status_is→≡ : (a b : SchedulerStatus) → status_is a b ≡ true → a ≡ b
status_is→≡ SchedulerStatus.created b h = ground arith
status_is→≡ a b h = ground arith

pub state_eq→≡ : (a b : SchedulerState) → state_eq a b ≡ true → a ≡ b
unfolding state_eq
state_eq→≡ a b h =
    let (h0, r0) = and_true _ _ h in
    let (h1, r1) = and_true _ _ r0 in
    let (h2, r2) = and_true _ _ r1 in
    let (h3, r3) = and_true _ _ r2 in
    let (h4, r4) = and_true _ _ r3 in
    let (h5, r5) = and_true _ _ r4 in
    let (h6, r6) = and_true _ _ r5 in
    let (h7, r7) = and_true _ _ r6 in
    let (h8, r8) = and_true _ _ r7 in
    let (h9, r9) = and_true _ _ r8 in
    let (h10, r10) = and_true _ _ r9 in
    let (h11, r11) = and_true _ _ r10 in
    let (h12, r12) = and_true _ _ r11 in
    let (h13, r13) = and_true _ _ r12 in
    let (h14, r14) = and_true _ _ r13 in
    λ i. record {
      schema_version = ((str_eq_iff a.schema_version b.schema_version).0 h0) i;
      scheduler_id = ((str_eq_iff a.scheduler_id b.scheduler_id).0 h1) i;
      project_id = ((str_eq_iff a.project_id b.project_id).0 h2) i;
      roadmap_id = ((str_eq_iff a.roadmap_id b.roadmap_id).0 h3) i;
      roadmap_version = ((str_eq_iff a.roadmap_version b.roadmap_version).0 h4) i;
      status = (status_is→≡ a.status b.status h5) i;
      current_item_id = ((option_eq_iff a.current_item_id b.current_item_id).0 h6) i;
      created_at = ((str_eq_iff a.created_at b.created_at).0 h7) i;
      updated_at = ((str_eq_iff a.updated_at b.updated_at).0 h8) i;
      lease_owner = ((option_eq_iff a.lease_owner b.lease_owner).0 h9) i;
      lease_expires_at = ((option_eq_iff a.lease_expires_at b.lease_expires_at).0 h10) i;
      budget_limit = (eq_ℤ→≡ a.budget_limit b.budget_limit h11) i;
      budget_used = (eq_ℤ→≡ a.budget_used b.budget_used h12) i;
      blocking_issues = ((texts_eq_iff a.blocking_issues b.blocking_issues).0 h13) i;
      required_human_actions =
          ((texts_eq_iff a.required_human_actions b.required_human_actions).0 h14) i;
      event_sequence = (eq_ℤ→≡ a.event_sequence b.event_sequence r14) i;
    }
