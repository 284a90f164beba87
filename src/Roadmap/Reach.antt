-- ===== src/Roadmap/Reach.antt =====
-- Roadmaps that the operations reach, in any order and number.
use agf_orchestrator.Base.{◌≡◌, String}
use agf_orchestrator.Base.Raise.{ok}
use agf_orchestrator.Roadmap.Models.{RoadmapItemStatus, Roadmap, validate}
use agf_orchestrator.Roadmap.Lifecycle.{transition, supersede}
use agf_orchestrator.Roadmap.Transition.{transition-validate, supersede-validate}
use agf_orchestrator.Roadmap.Settled.{IsSettled, transition-IsSettled, supersede-IsSettled}

-- One operation that succeeded.
pub data Step (r r' : Roadmap) : Type 0 where
  move : (x : String) (status : RoadmapItemStatus) → transition r x status ≡ ok r' → Step r r'
  replace : (x by : String) → supersede r x by ≡ ok r' → Step r r'

pub data Reach (r : Roadmap) : Roadmap → Type 0 where
  here : Reach r r
  next : {s t : Roadmap} → Reach r s → Step s t → Reach r t

Step-keeps :
    {r r' : Roadmap}
    → Step r r'
    → validate r ≡ ok tt
    → IsSettled r
    → (validate r' ≡ ok tt) × IsSettled r'
Step-keeps {r} {r'} (move x status run) h v =
    (transition-validate r r' x status h run, transition-IsSettled r r' x status h v run)
Step-keeps {r} {r'} (replace x by run) h v =
    (supersede-validate r r' x by h run, supersede-IsSettled r r' x by h v run)

-- Whatever transitions and supersessions succeed, in any order, a roadmap that validates and whose
-- COMPLETED items depend only on COMPLETED or SUPERSEDED items stays one.
pub Reach-keeps :
    {r r' : Roadmap}
    → Reach r r'
    → validate r ≡ ok tt
    → IsSettled r
    → (validate r' ≡ ok tt) × IsSettled r'
Reach-keeps here h v = (h, v)
Reach-keeps (next before step) h v = let (h', v') = Reach-keeps before h v in Step-keeps step h' v'
