-- ===== src/Scheduler/Journal/Reach.antt =====
-- The journal's file under any sequence of operations, and the retry of an append.
use agf_orchestrator.Base.{◌≡◌, refl, true, [], String}
use agf_orchestrator.Base.Raise.{ok}
use agf_orchestrator.Base.Text.{is_timestamp}
use agf_orchestrator.Scheduler.Loop.{SchedulerEvent}
use agf_orchestrator.Scheduler.Store.{Disk, Identity}
use agf_orchestrator.Scheduler.Journal.Records.{InboxItem}
use agf_orchestrator.Scheduler.Journal.{
  Journal, JournalFile, load_events, load_inbox, absent, load_unlocked, append_event, add_inbox,
  resolve_inbox,
}
use agf_orchestrator.Scheduler.Journal.Sound.{HoldsSound}
use agf_orchestrator.Scheduler.Journal.Keeps.{append_event-HoldsSound, add_inbox-HoldsSound}
use agf_orchestrator.Scheduler.Journal.Settle.{resolve_inbox-IsResolved}

-- An operation that returned took the file from its contents to its contents.
pub data Step (store : Identity) : JournalFile → JournalFile → Type 0 where
  appended :
      {file file' : JournalFile} (disk : Disk) (event e : SchedulerEvent)
      → append_event store disk file event ≡ (ok e, file')
      → Step store file file'
  added :
      {file file' : JournalFile} (disk : Disk) (item i : InboxItem)
      → add_inbox store disk file item ≡ (ok i, file')
      → Step store file file'
  resolved :
      {file file' : JournalFile} (disk : Disk) (now x actor outcome : String) (i : InboxItem)
      → is_timestamp now ≡ true
      → resolve_inbox store disk now file x actor outcome ≡ (ok i, file')
      → Step store file file'

pub data Reach (store : Identity) : JournalFile → JournalFile → Type 0 where
  here : {file : JournalFile} → Reach store file file
  next :
      {file file' file'' : JournalFile}
      → Reach store file file'
      → Step store file' file''
      → Reach store file file''

Step-HoldsSound :
    (store : Identity) (file file' : JournalFile)
    → Step store file file'
    → HoldsSound store file
    → HoldsSound store file'
Step-HoldsSound store _ _ (appended {file} {file'} disk event e h) s =
    append_event-HoldsSound store disk file file' event e s h
Step-HoldsSound store _ _ (added {file} {file'} disk item i h) s =
    add_inbox-HoldsSound store disk file file' item i s h
Step-HoldsSound store _ _ (resolved {file} {file'} disk now x actor outcome i n h) s =
    let (j, loaded, sound, _, _, _, _) =
      resolve_inbox-IsResolved store disk now file file' x actor outcome i s n h in
    (j, loaded, sound)

abbrev empty_journal : Journal
empty_journal = record { events = []; inbox = [] }

load_empty : (store : Identity) → load_unlocked store absent ≡ ok empty_journal
unfolding load_unlocked
load_empty store = refl

-- From no file, every sequence of appends, additions and resolutions that return leaves valid records that
-- load again, with consecutive events and with no identifier twice.
pub Reach-HoldsSound :
    (store : Identity) (file : JournalFile) → Reach store absent file → HoldsSound store file
unfolding load_events load_inbox
Reach-HoldsSound store _ here = (
  empty_journal,
  load_empty store,
  record {
    events_valid = refl;
    inbox_valid = refl;
    bounded = refl;
    consecutive = tt;
    events_distinct = refl;
    inbox_distinct = refl;
  },
)
Reach-HoldsSound store _ (next {file' = file'} {file'' = file''} before step) =
    Step-HoldsSound store file' file'' step (Reach-HoldsSound store file' before)
