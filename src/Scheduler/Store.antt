-- ===== src/Scheduler/Store.antt =====
-- Persistence of the scheduler's state (src/agf_orchestrator/scheduler_store.py). A file is absent, is no
-- document of the schema, or holds the document of a state; the operations hold the project's lock.
pub mod Equality
pub mod Laws
pub mod Create
use Prim.Native.String.{◌++◌}
use agf_orchestrator.Base.{
  Bool, true, false, not, ◌&&◌, ◌||◌, Option, none, some, List, [], ◌∷◌, String, if◌then◌else◌, all,
}
use agf_orchestrator.Base.Int.{eq_ℤ}
use agf_orchestrator.Base.Raise.{
  Error, message, Result, ok, raise, scheduler_store_error, raise_if, ◌>>=◌, ◌>>◌,
}
use agf_orchestrator.Base.Text.{str_eq}
use agf_orchestrator.Scheduler.Models.{
  SchedulerState, SchedulerStatus, status_is, validate, transition,
}
use agf_orchestrator.Scheduler.Safety.{option_eq}

pub data File : Type 0 where
  absent : File
  -- what `json.loads` or the schema refuses, with the message of the exception
  malformed : String → File
  document : SchedulerState → File

-- Whether a write goes through; if not, the message of the `OSError`.
abbrev pub Disk : Type 0
Disk = Option String

-- The names of a store's project and scheduler.
pub record Identity : Type 0 where
  pub project_id : String
  pub scheduler_id : String

-- An operation's result, and the file that it leaves.
abbrev pub Outcome : Type 0
Outcome = Result SchedulerState × File

abbrev pub texts_eq : List String → List String → Bool
texts_eq [] [] = true
texts_eq (x ∷ xs) (y ∷ ys) = str_eq x y && texts_eq xs ys
texts_eq _ _ = false

-- `existing == state`
unfoldable pub state_eq : SchedulerState → SchedulerState → Bool
state_eq a b =
    str_eq a.schema_version b.schema_version
    && (str_eq a.scheduler_id b.scheduler_id
        && (str_eq a.project_id b.project_id
            && (str_eq a.roadmap_id b.roadmap_id
                && (str_eq a.roadmap_version b.roadmap_version
                    && (status_is a.status b.status
                        && (option_eq a.current_item_id b.current_item_id
                            && (str_eq a.created_at b.created_at
                                && (str_eq a.updated_at b.updated_at
                                    && (option_eq a.lease_owner b.lease_owner
                                        && (option_eq a.lease_expires_at b.lease_expires_at
                                            && (eq_ℤ a.budget_limit b.budget_limit
                                                && (eq_ℤ a.budget_used b.budget_used
                                                    && (texts_eq a.blocking_issues b.blocking_issues
                                                        && (texts_eq a.required_human_actions
                                                            b.required_human_actions
                                                            && eq_ℤ a.event_sequence
                                                            b.event_sequence))))))))))))))

-- `except … as exc: raise SchedulerStoreError(prefix + str(exc)) from exc`
abbrev pub as_store_error {ℓ} : {A : Type ℓ} → String → Result A → Result A
as_store_error prefix (ok a) = ok a
as_store_error prefix (raise e) = raise (scheduler_store_error (prefix ++ message e))

-- `_load_unlocked`; the document is validated by `scheduler_from_dict`.
unfoldable pub load_unlocked : File → Result (Option SchedulerState)
load_unlocked absent = ok none
load_unlocked (malformed reason) =
    raise (scheduler_store_error ("invalid scheduler state: " ++ reason))
load_unlocked (document s) = as_store_error "invalid scheduler state: " (validate s) >> ok (some s)

-- `_save_unlocked`: the file is replaced whole or not at all.
unfoldable pub save_unlocked : Disk → File → SchedulerState → Outcome
save_unlocked none file s = (ok s, document s)
save_unlocked (some reason) file s =
    (raise (scheduler_store_error ("scheduler state write failed: " ++ reason)), file)

-- `_validate_identity`
unfoldable pub validate_identity : Identity → SchedulerState → Result (Unit {0})
validate_identity store s = do
  as_store_error "" (validate s)
  raise_if
      (not (str_eq s.project_id store.project_id) || not (str_eq s.scheduler_id store.scheduler_id))
      (scheduler_store_error "scheduler state identity does not match store")

-- The body of `create` under the lock.
unfoldable pub create_loaded :
    Disk → File → SchedulerState → Result (Option SchedulerState) → Outcome
unfolding save_unlocked
create_loaded disk file s (raise e) = (raise e, file)
create_loaded disk file s (ok none) = save_unlocked disk file s
create_loaded disk file s (ok (some existing)) = (
  if state_eq existing s
      then ok existing
      else raise (scheduler_store_error "scheduler state already exists with different content"),
  file,
)

unfoldable pub create_checked : Disk → File → SchedulerState → Result (Unit {0}) → Outcome
unfolding create_loaded
create_checked disk file s (raise e) = (raise e, file)
create_checked disk file s (ok _) = create_loaded disk file s (load_unlocked file)

-- `create`
unfoldable pub create : Identity → Disk → File → SchedulerState → Outcome
unfolding create_checked
create store disk file s = create_checked disk file s (validate_identity store s)

-- `load`
unfoldable pub load : File → Result SchedulerState
unfolding load_unlocked
load file = load_unlocked file >>= elim [
  | none ↦ raise (scheduler_store_error "scheduler state was not found")
  | some s ↦ ok s
]

abbrev save_moved : Disk → File → Result SchedulerState → Outcome
save_moved disk file (raise e) = (raise e, file)
save_moved disk file (ok t) = save_unlocked disk file t

unfoldable pub transition_loaded : Disk → File → SchedulerStatus → Result SchedulerState → Outcome
unfolding save_unlocked
transition_loaded disk file to (raise e) = (raise e, file)
transition_loaded disk file to (ok current) =
    if status_is current.status to
    then (ok current, file)
    else save_moved disk file (as_store_error "" (transition current to))

-- `transition`
unfoldable pub transition_stored : Disk → File → SchedulerStatus → Outcome
unfolding transition_loaded
transition_stored disk file to = transition_loaded disk file to (load file)
