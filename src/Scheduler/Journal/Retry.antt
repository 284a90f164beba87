-- ===== src/Scheduler/Journal/Retry.antt =====
-- The retry of an append.
use agf_orchestrator.Base.{
  ◌≡◌, refl, sym, ap, ◌∙◌, true, none, some, List, [], ◌∷◌, ◌++◌, arith, Bool-cases, Option-cases,
  and_true, inl, inr, get_last?,
}
use agf_orchestrator.Base.Int.{eq_ℤ→≡, ≡→eq_ℤ}
use agf_orchestrator.Base.Raise.{ok, ok-injective}
use agf_orchestrator.Base.Text.{str_eq, str_eq_iff, str_eq_refl}
use agf_orchestrator.Scheduler.Loop.{SchedulerEvent}
use agf_orchestrator.Scheduler.Store.{Disk, Identity}
use agf_orchestrator.Scheduler.Journal.Records.{check_event, event_eq}
use agf_orchestrator.Scheduler.Journal.{
  Journal, JournalFile, load_unlocked, event_with, append_loaded, append_event, locked,
  breaks_sequence,
}
use agf_orchestrator.Scheduler.Journal.Sound.{
  load_unlocked-eq-ok, load_unlocked_records, locked-eq-ok, save_unlocked-eq-ok, load_events-append,
}

event_eq_refl : (e : SchedulerEvent) → event_eq e e ≡ true
unfolding event_eq
event_eq_refl e = ground (
  arith,
  str_eq_refl e.event_id,
  ≡→eq_ℤ e.sequence e.sequence refl,
  str_eq_refl e.event_type,
  str_eq_refl e.from_status,
  str_eq_refl e.to_status,
  str_eq_refl e.summary,
)

event_eq→≡ : (a b : SchedulerEvent) → event_eq a b ≡ true → a ≡ b
unfolding event_eq
event_eq→≡ a b h =
    let (h0, r0) = and_true _ _ h in
    let (h1, r1) = and_true _ _ r0 in
    let (h2, r2) = and_true _ _ r1 in
    let (h3, r3) = and_true _ _ r2 in
    let (h4, r4) = and_true _ _ r3 in
    λ i. record {
      event_id = ((str_eq_iff a.event_id b.event_id).0 h0) i;
      sequence = (eq_ℤ→≡ a.sequence b.sequence h1) i;
      event_type = ((str_eq_iff a.event_type b.event_type).0 h2) i;
      from_status = ((str_eq_iff a.from_status b.from_status).0 h3) i;
      to_status = ((str_eq_iff a.to_status b.to_status).0 h4) i;
      summary = ((str_eq_iff a.summary b.summary).0 r4) i;
    }

-- The file holds a journal that loads and in which the event stands under its identifier.
abbrev IsAppended : Identity → JournalFile → SchedulerEvent → Type 0
IsAppended store file event =
    (j : Journal) × (load_unlocked store file ≡ ok j)
    × (event_with event.event_id j.events ≡ some event)

event_with-append :
    (es : List SchedulerEvent) (event : SchedulerEvent)
    → event_with event.event_id es ≡ none
    → event_with event.event_id (es ++ event ∷ []) ≡ some event
event_with-append [] event h = let same = str_eq_refl event.event_id in rw same refl
event_with-append (e ∷ es) event h = elim (Bool-cases (str_eq e.event_id event.event_id)) [
  | inl hit ↦ let h' = rw hit at h in absurd (cc)
  | inr miss ↦ let more = event_with-append es event (rw miss at h) in rw miss more
]

append_loaded-IsAppended :
    (store : Identity) (disk : Disk) (file file' : JournalFile) (event e : SchedulerEvent)
    (j : Journal)
    → load_unlocked store file ≡ ok j
    → check_event event ≡ ok tt
    → append_loaded disk file event j (event_with event.event_id j.events) ≡ (ok e, file')
    → (e ≡ event) × IsAppended store file' event
unfolding append_loaded
append_loaded-IsAppended store disk file file' event e j loaded checked h =
    elim (Option-cases (event_with event.event_id j.events)) [
      | inr (existing, found) ↦ elim (Bool-cases (event_eq existing event)) [
        | inr other ↦ let h' = rw (found, append_loaded, other) at h in absurd (cc)
        | inl equal ↦
            let h' = rw (found, append_loaded, equal) at h in
            let same : existing ≡ event = event_eq→≡ existing event equal in
            let held : file ≡ file' = ap (λ w. w.1) h' in
            (
              sym (ok-injective existing e (ap (λ w. w.0) h')) ∙ same,
              (j, rw (← held) loaded, found ∙ ap some same),
            )
      ]
      | inl fresh ↦ elim (Bool-cases (breaks_sequence event (get_last? j.events))) [
        | inl gap ↦ let h' = rw (fresh, append_loaded, gap) at h in absurd (cc)
        | inr next ↦
            let new = record j { events = j.events ++ event ∷ [] } in
            let (fits, same, written) =
              save_unlocked-eq-ok disk file file' new event e
                (rw (fresh, append_loaded, next) at h) in
            let (events_ok, inbox_ok, _) = load_unlocked-eq-ok store file j loaded in
            (
              sym same,
              (
                new,
                rw written (
                    load_unlocked_records store new
                      (load_events-append j.events event events_ok checked) inbox_ok fits),
                event_with-append j.events event fresh,
              ),
            )
      ]
    ]

-- An `append_event` that returns gives its own event, and the same call on the file that it leaves gives
-- it again and changes nothing, whether or not the disk would take a write.
pub append_event_again :
    (store : Identity) (disk disk' : Disk) (file file' : JournalFile) (event e : SchedulerEvent)
    → append_event store disk file event ≡ (ok e, file')
    → (e ≡ event) × (append_event store disk' file' event ≡ (ok event, file'))
unfolding append_event
append_event_again store disk disk' file file' event e h =
    let (j, checked, loaded, body) = locked-eq-ok store file file' (check_event event) _ e h in
    let (same, (k, loads, found)) =
      append_loaded-IsAppended store disk file file' event e j loaded checked body in
    let equal = event_eq_refl event in
    (same, rw (checked, locked, loads, found, append_loaded, equal) refl)
