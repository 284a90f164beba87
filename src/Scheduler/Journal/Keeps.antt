-- ===== src/Scheduler/Journal/Keeps.antt =====
-- The journal's operations keep its records sound.
use agf_orchestrator.Base.{
  ◌≡◌, sym, ap, ◌∙◌, subst, [], ◌∷◌, ◌++◌, Bool-cases, Option-cases, inl, inr, get_last?,
}
use agf_orchestrator.Base.Raise.{ok, ok-injective}
use agf_orchestrator.Scheduler.Loop.{SchedulerEvent}
use agf_orchestrator.Scheduler.Store.{Disk, Identity}
use agf_orchestrator.Scheduler.Journal.Records.{InboxItem, check_event, validate_inbox}
use agf_orchestrator.Scheduler.Journal.{
  Journal, JournalFile, records, load_unlocked, breaks_sequence, event_with, inbox_with,
  append_loaded, append_event, add_loaded, add_inbox,
}
use agf_orchestrator.Scheduler.Journal.Sound.{
  IsSound, HoldsSound, load_unlocked_records, load_events-append, load_inbox-append,
  IsConsecutive-append, distinct-append, locked-eq-ok, save_unlocked-eq-ok,
}

HoldsSound-records :
    (store : Identity) (j : Journal) → IsSound store j → HoldsSound store (records j)
HoldsSound-records store j s =
    (j, load_unlocked_records store j s.events_valid s.inbox_valid s.bounded, s)

pub IsSound-holds :
    (store : Identity) (file : JournalFile) (j : Journal)
    → HoldsSound store file
    → load_unlocked store file ≡ ok j
    → IsSound store j
IsSound-holds store file j (k, loaded, s) h =
    subst (IsSound store) (ok-injective k j (sym loaded ∙ h)) s

-- The journal with one more event.
abbrev with_event : Journal → SchedulerEvent → Journal
with_event j event = record j { events = j.events ++ event ∷ [] }

append_loaded-HoldsSound :
    (store : Identity) (disk : Disk) (file file' : JournalFile) (event e : SchedulerEvent)
    (j : Journal)
    → HoldsSound store file
    → IsSound store j
    → check_event event ≡ ok tt
    → append_loaded disk file event j (event_with event.event_id j.events) ≡ (ok e, file')
    → HoldsSound store file'
unfolding append_loaded
append_loaded-HoldsSound store disk file file' event e j before s checked h =
    elim (Option-cases (event_with event.event_id j.events)) [
      | inr (existing, found) ↦
          let h' = rw (found, append_loaded) at h in
          let same : file ≡ file' = ap (λ w. w.1) h' in subst (HoldsSound store) same before
      | inl fresh ↦ elim (Bool-cases (breaks_sequence event (get_last? j.events))) [
        | inl gap ↦ let h' = rw (fresh, append_loaded, gap) at h in absurd (cc)
        | inr next ↦
            let (fits, _, written) =
              save_unlocked-eq-ok disk file file' (with_event j event) event e
                (rw (fresh, append_loaded, next) at h) in
            subst (HoldsSound store) (sym written) (
              HoldsSound-records store (with_event j event) (record {
                events_valid = load_events-append j.events event s.events_valid checked;
                inbox_valid = s.inbox_valid;
                bounded = fits;
                consecutive = IsConsecutive-append j.events event s.consecutive next;
                events_distinct =
                    distinct-append (λ (w : SchedulerEvent). w.event_id) j.events event
                      s.events_distinct fresh;
                inbox_distinct = s.inbox_distinct;
              }))
      ]
    ]

-- An `append_event` that returns leaves a sound file sound.
pub append_event-HoldsSound :
    (store : Identity) (disk : Disk) (file file' : JournalFile) (event e : SchedulerEvent)
    → HoldsSound store file
    → append_event store disk file event ≡ (ok e, file')
    → HoldsSound store file'
unfolding append_event
append_event-HoldsSound store disk file file' event e before h =
    let (j, checked, loaded, body) = locked-eq-ok store file file' (check_event event) _ e h in
    append_loaded-HoldsSound store disk file file' event e j before
      (IsSound-holds store file j before loaded) checked body

abbrev with_item : Journal → InboxItem → Journal
with_item j item = record j { inbox = j.inbox ++ item ∷ [] }

add_loaded-HoldsSound :
    (store : Identity) (disk : Disk) (file file' : JournalFile) (item i : InboxItem) (j : Journal)
    → HoldsSound store file
    → IsSound store j
    → validate_inbox store item ≡ ok tt
    → add_loaded disk file item j (inbox_with item.inbox_id j.inbox) ≡ (ok i, file')
    → HoldsSound store file'
unfolding add_loaded
add_loaded-HoldsSound store disk file file' item i j before s checked h =
    elim (Option-cases (inbox_with item.inbox_id j.inbox)) [
      | inr (existing, found) ↦
          let h' = rw (found, add_loaded) at h in
          let same : file ≡ file' = ap (λ w. w.1) h' in subst (HoldsSound store) same before
      | inl fresh ↦
          let (fits, _, written) =
            save_unlocked-eq-ok disk file file' (with_item j item) item i
              (rw (fresh, add_loaded) at h) in
          subst (HoldsSound store) (sym written) (
            HoldsSound-records store (with_item j item) (record {
              events_valid = s.events_valid;
              inbox_valid = load_inbox-append store j.inbox item s.inbox_valid checked;
              bounded = fits;
              consecutive = s.consecutive;
              events_distinct = s.events_distinct;
              inbox_distinct =
                  distinct-append (λ (w : InboxItem). w.inbox_id) j.inbox item s.inbox_distinct
                    fresh;
            }))
    ]

-- An `add_inbox` that returns leaves a sound file sound.
pub add_inbox-HoldsSound :
    (store : Identity) (disk : Disk) (file file' : JournalFile) (item i : InboxItem)
    → HoldsSound store file
    → add_inbox store disk file item ≡ (ok i, file')
    → HoldsSound store file'
unfolding add_inbox
add_inbox-HoldsSound store disk file file' item i before h =
    let (j, checked, loaded, body) =
      locked-eq-ok store file file' (validate_inbox store item) _ i h in
    add_loaded-HoldsSound store disk file file' item i j before
      (IsSound-holds store file j before loaded) checked body
