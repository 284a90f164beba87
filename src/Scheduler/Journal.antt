-- ===== src/Scheduler/Journal.antt =====
-- The event journal and the human inbox (src/agf_orchestrator/scheduler_journal.py). The operations hold the
-- project's lock, which is one file for all of them; the file holds two lists of records.
pub mod Records
pub mod Sound
pub mod Keeps
pub mod Resolve
pub mod Settle
pub mod Retry
pub mod Reach
use Prim.Native.String.{◌++◌}
use mathlib.Core.List.{reverse}
use agf_orchestrator.Base.{
  ℕ, Bool, true, false, not, ◌&&◌, ◌||◌, Option, none, some, List, [], ◌∷◌, ◌++◌ as append, String,
  leb, ltb, length, keep, take, drop, find_first, get_last?, ◌-◌, if◌then◌else◌,
}
use agf_orchestrator.Base.Int.{ℤ, pos, ◌+ℤ◌, leb_ℤ, ltb_ℤ, eq_ℤ, pos_part}
use agf_orchestrator.Base.Raise.{
  Error, message, Result, ok, raise, scheduler_journal_error, raise_if, ◌>>=◌, ◌>>◌,
}
use agf_orchestrator.Base.Sort.{sort_by}
use agf_orchestrator.Base.Text.{str_eq, str_lt, starts_with}
use agf_orchestrator.Scheduler.Loop.{SchedulerEvent}
use agf_orchestrator.Scheduler.Store.{Disk, Identity}
use Records.{InboxItem, journal_text, validate_inbox, check_event, event_eq, inbox_eq, is_open}

-- The contents of the journal's file.
pub record Journal : Type 0 where
  pub events : List SchedulerEvent
  pub inbox : List InboxItem

-- A file is absent, is no document of the schema, or holds the records of a journal.
pub data JournalFile : Type 0 where
  absent : JournalFile
  -- what `json.loads` or the schema refuses, with the message of the exception
  malformed : String → JournalFile
  records : Journal → JournalFile

-- `_MAX_RECORDS`
abbrev max_records : ℕ
max_records = 500

abbrev pub Saved {ℓ} : Type ℓ → Type ℓ
Saved A = Result A × JournalFile

-- `[self._event_from_dict(item) for item in …]`
unfoldable pub load_events : List SchedulerEvent → Result (Unit {0})
load_events [] = ok tt
load_events (e ∷ es) = check_event e >> load_events es

-- `[self._inbox_from_dict(item) for item in …]`
unfoldable pub load_inbox : Identity → List InboxItem → Result (Unit {0})
load_inbox store [] = ok tt
load_inbox store (i ∷ is) = validate_inbox store i >> load_inbox store is

abbrev pub is_oversized : Journal → Bool
is_oversized j = ltb max_records (length j.events) || ltb max_records (length j.inbox)

-- `_load_unlocked`
unfoldable pub load_unlocked : Identity → JournalFile → Result Journal
unfolding load_events load_inbox
load_unlocked store absent = ok (record { events = []; inbox = [] })
load_unlocked store (malformed reason) =
    raise (scheduler_journal_error ("invalid scheduler journal: " ++ reason))
load_unlocked store (records j) = do
  load_events j.events
  load_inbox store j.inbox
  raise_if (is_oversized j) (scheduler_journal_error "scheduler journal is unbounded")
  ok j

-- `_save_unlocked`: the file is replaced whole or not at all.
unfoldable pub save_unlocked {ℓ} : {A : Type ℓ} → Disk → JournalFile → Journal → A → Saved A
save_unlocked disk old new value =
    if is_oversized new
    then (raise (scheduler_journal_error "scheduler journal capacity exceeded"), old)
    else elim disk [
      | none ↦ (ok value, records new)
      | some reason ↦
          (raise (scheduler_journal_error ("scheduler journal write failed: " ++ reason)), old)
    ]

-- `events and event.sequence != events[-1].sequence + 1`
abbrev pub breaks_sequence : SchedulerEvent → Option SchedulerEvent → Bool
breaks_sequence event none = false
breaks_sequence event (some last) = not (eq_ℤ event.sequence (last.sequence +ℤ pos 1))

abbrev pub event_with : String → List SchedulerEvent → Option SchedulerEvent
event_with x = find_first (λ (e : SchedulerEvent). str_eq e.event_id x)

abbrev pub inbox_with : String → List InboxItem → Option InboxItem
inbox_with x = find_first (λ (i : InboxItem). str_eq i.inbox_id x)

-- The body of an operation under the lock, after its own checks and the load.
abbrev pub locked {ℓ} :
    {A : Type ℓ} → Identity → JournalFile → Result (Unit {0}) → (Journal → Saved A) → Saved A
locked store file checks body = elim (checks >> load_unlocked store file) [
  | raise e ↦ (raise e, file)
  | ok j ↦ body j
]

unfoldable pub append_loaded :
    Disk → JournalFile → SchedulerEvent → Journal → Option SchedulerEvent → Saved SchedulerEvent
unfolding save_unlocked
append_loaded disk file event j (some existing) = (
  if event_eq existing event
      then ok existing
      else raise (scheduler_journal_error "event ID already exists with different content"),
  file,
)
append_loaded disk file event j none =
    if breaks_sequence event (get_last? j.events)
    then (raise (scheduler_journal_error "event sequence is not monotonic"), file)
    else save_unlocked disk file (record j { events = append j.events (event ∷ []) }) event

-- `append_event`
unfoldable pub append_event : Identity → Disk → JournalFile → SchedulerEvent → Saved SchedulerEvent
unfolding append_loaded
append_event store disk file event =
    locked store file (check_event event)
      (λ j. append_loaded disk file event j (event_with event.event_id j.events))

unfoldable pub add_loaded :
    Disk → JournalFile → InboxItem → Journal → Option InboxItem → Saved InboxItem
unfolding save_unlocked
add_loaded disk file item j (some existing) = (
  if inbox_eq existing item
      then ok existing
      else raise (scheduler_journal_error "inbox ID already exists with different content"),
  file,
)
add_loaded disk file item j none =
    save_unlocked disk file (record j { inbox = append j.inbox (item ∷ []) }) item

-- `add_inbox`
unfoldable pub add_inbox : Identity → Disk → JournalFile → InboxItem → Saved InboxItem
unfolding add_loaded
add_inbox store disk file item =
    locked store file (validate_inbox store item)
      (λ j. add_loaded disk file item j (inbox_with item.inbox_id j.inbox))

-- `_validate_limit`
unfoldable validate_limit : ℤ → Result (Unit {0})
validate_limit limit =
    raise_if (not (leb_ℤ (pos 1) limit && leb_ℤ limit (pos max_records)))
      (scheduler_journal_error "journal limit is invalid")

-- `audit`: `events[-limit:]`
unfoldable pub audit : Identity → JournalFile → ℤ → Result (List SchedulerEvent)
unfolding validate_limit
audit store file limit = do
  validate_limit limit
  j ← load_unlocked store file
  ok (drop (length j.events - pos_part limit) j.events)

-- `open_inbox`
unfoldable pub open_inbox : Identity → JournalFile → ℤ → Result (List InboxItem)
unfolding validate_limit
open_inbox store file limit = do
  validate_limit limit
  j ← load_unlocked store file
  ok (
      take (pos_part limit) (
        sort_by (λ (a : InboxItem) (b : InboxItem). str_lt a.inbox_id b.inbox_id)
          (keep is_open j.inbox)))

-- `replace(existing, status=RESOLVED, …)`; `now` is what `_now()` returns.
abbrev pub resolved_item : InboxItem → String → String → String → InboxItem
resolved_item existing actor outcome now = record existing {
  status = "RESOLVED";
  resolution_actor = actor;
  resolution_outcome = outcome;
  resolved_at = now;
}

-- `[resolved if item.inbox_id == inbox_id else item for item in inbox]`
abbrev pub replace_inbox : String → InboxItem → List InboxItem → List InboxItem
replace_inbox x resolved [] = []
replace_inbox x resolved (i ∷ is) =
    (if str_eq i.inbox_id x then resolved else i) ∷ replace_inbox x resolved is

unfoldable pub resolve_loaded :
    Disk
    → String
    → JournalFile
    → String
    → String
    → String
    → Journal
    → Option InboxItem
    → Saved InboxItem
unfolding save_unlocked
resolve_loaded disk now file x actor outcome j none =
    (raise (scheduler_journal_error "inbox ID does not exist"), file)
resolve_loaded disk now file x actor outcome j (some existing) =
    if str_eq existing.status "RESOLVED"
    then (
      if str_eq existing.resolution_actor actor && str_eq existing.resolution_outcome outcome
          then ok existing
          else raise (scheduler_journal_error "inbox resolution conflicts with existing result"),
      file,
    )
    else let resolved = resolved_item existing actor outcome now in
      save_unlocked disk file (record j { inbox = replace_inbox x resolved j.inbox }) resolved

-- The checks of `resolve_inbox` before it takes the lock.
unfoldable pub resolve_checks : String → String → String → Result (Unit {0})
resolve_checks x actor outcome = do
  raise_if (not (starts_with x "inbox-")) (scheduler_journal_error "inbox ID is invalid")
  journal_text actor
  journal_text outcome

-- `resolve_inbox`
unfoldable pub resolve_inbox :
    Identity → Disk → String → JournalFile → String → String → String → Saved InboxItem
unfolding resolve_loaded resolve_checks
resolve_inbox store disk now file x actor outcome =
    locked store file (resolve_checks x actor outcome)
      (λ j. resolve_loaded disk now file x actor outcome j (inbox_with x j.inbox))
