-- ===== src/Session/Models/Graph.antt =====
-- The paths of a session through its statuses.
use agf_orchestrator.Base.{
  ◌≡◌, inl, inr, Bool, true, false, not, ◌&&◌, ◌||◌, List, [], ◌∷◌, arith, Bool-cases, any, leb,
}
use agf_orchestrator.Session.Models.{
  SessionStatus, planning, correcting, completed, status_is, status_index, allowed_transitions,
}

-- A path of allowed transitions, by the statuses after its first one.
abbrev pub is_path : SessionStatus → List SessionStatus → Bool
is_path s [] = true
is_path s (t ∷ ts) = allowed_transitions s t && is_path t ts

abbrev last_of : SessionStatus → List SessionStatus → SessionStatus
last_of s [] = s
last_of s (t ∷ ts) = last_of t ts

abbrev pub visits : List SessionStatus → SessionStatus → Bool
visits ts m = any (status_is m) ts

module _ (m : SessionStatus) (before : SessionStatus → Bool)
    (closed : (s t : SessionStatus)
      → before s ≡ true
      → allowed_transitions s t ≡ true
      → (before t || status_is m t) ≡ true) where
  -- A path that leaves a set of statuses that only `m` leads out of visits `m`.
  visits_exit :
      (s : SessionStatus) (ts : List SessionStatus)
      → before s ≡ true
      → is_path s ts ≡ true
      → before (last_of s ts) ≡ false
      → visits ts m ≡ true
  visits_exit s [] b p l = cc
  visits_exit s (t ∷ ts) b p l = elim (Bool-cases (status_is m t)) [
    | inl hit ↦ ground arith
    | inr miss ↦
        let k = closed s t b (ground arith) in
        let later = visits_exit t ts (ground arith) (ground arith) l in ground arith
  ]

-- Whether a status comes before a stage of the work or stands beside the work.
abbrev before_stage : SessionStatus → SessionStatus → Bool
before_stage m s =
    not (leb (status_index m) (status_index s) && leb (status_index s) 7 || status_is s completed)

-- The six stages that no session can skip.
abbrev is_stage : SessionStatus → Bool
is_stage m = not (status_is m planning || status_is m correcting) && leb (status_index m) 7

closed_stage :
    (m s t : SessionStatus)
    → is_stage m ≡ true
    → before_stage m s ≡ true
    → allowed_transitions s t ≡ true
    → (before_stage m t || status_is m t) ≡ true
unfolding allowed_transitions
closed_stage m s t stage b a = ground arith

-- A session that goes from PLANNING to COMPLETED by allowed transitions passes through READY, EXECUTING,
-- REVIEWING, COMPLIANCE, DELIVERING and PR_READY.
pub completed_visits :
    (ts : List SessionStatus) (m : SessionStatus)
    → is_path planning ts ≡ true
    → last_of planning ts ≡ completed
    → is_stage m ≡ true
    → visits ts m ≡ true
completed_visits ts m path done stage =
    visits_exit m (before_stage m) (λ s t. closed_stage m s t stage) planning ts (ground arith) path
      (ground arith)
