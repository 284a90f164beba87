-- ===== src/Scheduler/Journal/Settle.antt =====
-- What `resolve_inbox` leaves: sound records, and an item that keeps its first resolution.
use agf_orchestrator.Base.{
  ◌≡◌, ◌≢◌, ◌⊎◌, arith, refl, ap, ◌∙◌, subst, true, false, not, ◌&&◌, some, List, [], ◌∷◌, String,
  Bool-cases, Option-cases, inl, inr, and_true,
}
use agf_orchestrator.Base.Raise.{
  Error, Result-cases, ok, raise, ok-injective, >>=-eq-ok, raise_if, scheduler_journal_error,
}
use agf_orchestrator.Base.Text.{
  str_eq, str_eq_iff, str_eq_refl, str_distinct, is_timestamp, starts_with,
}
use agf_orchestrator.Scheduler.Store.{Disk, Identity}
use agf_orchestrator.Scheduler.Journal.Records.{InboxItem, journal_text}
use agf_orchestrator.Scheduler.Journal.{
  Journal, JournalFile, load_unlocked, is_oversized, inbox_with, resolved_item, replace_inbox,
  resolve_loaded, resolve_checks, resolve_inbox, locked,
}
use agf_orchestrator.Scheduler.Journal.Sound.{
  IsSound, HoldsSound, load_unlocked_records, locked-eq-ok, save_unlocked-eq-ok,
}
use agf_orchestrator.Scheduler.Journal.Keeps.{IsSound-holds}
use agf_orchestrator.Scheduler.Journal.Resolve.{
  validate_inbox-resolved, replace_inbox-load_inbox, replace_inbox-ids, inbox_with-eq-some,
}

abbrev with_resolved : Journal → String → InboxItem → Journal
with_resolved j x r = record j { inbox = replace_inbox x r j.inbox }

-- The file holds sound records, and in them the item is resolved by the actor with the outcome.
abbrev pub IsResolved : Identity → JournalFile → String → String → String → InboxItem → Type 0
IsResolved store file x actor outcome i =
    (j : Journal) × (load_unlocked store file ≡ ok j)
    × IsSound store j
    × (inbox_with x j.inbox ≡ some i)
    × (str_eq i.status "RESOLVED" ≡ true)
    × (i.resolution_actor ≡ actor)
    × (i.resolution_outcome ≡ outcome)

inbox_with-replace_inbox :
    (x : String) (r i : InboxItem) (is : List InboxItem)
    → r.inbox_id ≡ x
    → inbox_with x is ≡ some i
    → inbox_with x (replace_inbox x r is) ≡ some r
inbox_with-replace_inbox x r i [] e f = absurd (cc)
inbox_with-replace_inbox x r i (j ∷ is) e f = elim (Bool-cases (str_eq j.inbox_id x)) [
  | inl hit ↦ let same = (str_eq_iff r.inbox_id x).1 e in rw (hit, same) refl
  | inr miss ↦ let more = inbox_with-replace_inbox x r i is e (rw miss at f) in rw (miss, miss) more
]

resolve_checks-texts :
    (x actor outcome : String)
    → resolve_checks x actor outcome ≡ ok tt
    → (journal_text actor ≡ ok tt) × (journal_text outcome ≡ ok tt)
unfolding resolve_checks
resolve_checks-texts x actor outcome h =
    let (_, _, h₁) =
      >>=-eq-ok
        (raise_if (not (starts_with x "inbox-")) (scheduler_journal_error "inbox ID is invalid")) _
        h in
    let (_, a, o) = >>=-eq-ok (journal_text actor) _ h₁ in (a, o)

IsSound-with_resolved :
    (store : Identity) (j : Journal) (x : String) (i : InboxItem) (actor outcome now : String)
    → IsSound store j
    → inbox_with x j.inbox ≡ some i
    → journal_text actor ≡ ok tt
    → journal_text outcome ≡ ok tt
    → is_timestamp now ≡ true
    → is_oversized (with_resolved j x (resolved_item i actor outcome now)) ≡ false
    → IsSound store (with_resolved j x (resolved_item i actor outcome now))
IsSound-with_resolved store j x i actor outcome now s found a o n fits =
    let r = resolved_item i actor outcome now in
    let (valid, named) = inbox_with-eq-some store x j.inbox i s.inbox_valid found in
    record {
      events_valid = s.events_valid;
      inbox_valid =
          replace_inbox-load_inbox store x r j.inbox s.inbox_valid
            (validate_inbox-resolved store i actor outcome now valid a o n);
      bounded = fits;
      consecutive = s.consecutive;
      events_distinct = s.events_distinct;
      inbox_distinct = ap str_distinct (replace_inbox-ids x r j.inbox named) ∙ s.inbox_distinct;
    }

resolve_loaded-IsResolved :
    (store : Identity) (disk : Disk) (now : String) (file file' : JournalFile)
    (x actor outcome : String) (j : Journal) (i : InboxItem)
    → load_unlocked store file ≡ ok j
    → IsSound store j
    → journal_text actor ≡ ok tt
    → journal_text outcome ≡ ok tt
    → is_timestamp now ≡ true
    → resolve_loaded disk now file x actor outcome j (inbox_with x j.inbox) ≡ (ok i, file')
    → IsResolved store file' x actor outcome i
unfolding resolve_loaded
resolve_loaded-IsResolved store disk now file file' x actor outcome j i loaded s a o n h =
    elim (Option-cases (inbox_with x j.inbox)) [
      | inl missing ↦ let h' = rw (missing, resolve_loaded) at h in absurd (cc)
      | inr (k, found) ↦ elim (Bool-cases (str_eq k.status "RESOLVED")) [
        | inl closed ↦
            elim (Bool-cases
              (str_eq k.resolution_actor actor && str_eq k.resolution_outcome outcome)) [
                | inr conflict ↦
                    let h' = rw (found, resolve_loaded, closed, conflict) at h in absurd (cc)
                | inl agreed ↦
                    let h' = rw (found, resolve_loaded, closed, agreed) at h in
                    let same : k ≡ i = ok-injective k i (ap (λ w. w.0) h') in
                    let held : file ≡ file' = ap (λ w. w.1) h' in
                    let parts =
                      and_true (str_eq k.resolution_actor actor)
                        (str_eq k.resolution_outcome outcome) agreed in
                    subst (λ w. IsResolved store file' x actor outcome w) same
                      (
                        j,
                        rw (← held) loaded,
                        s,
                        found,
                        closed,
                        (str_eq_iff k.resolution_actor actor).0 parts.0,
                        (str_eq_iff k.resolution_outcome outcome).0 parts.1,
                      )
              ]
        | inr still_open ↦
            let r = resolved_item k actor outcome now in
            let (fits, same, written) =
              save_unlocked-eq-ok disk file file' (with_resolved j x r) r i
                (rw (found, resolve_loaded, still_open) at h) in
            let s' = IsSound-with_resolved store j x k actor outcome now s found a o n fits in
            let named = (inbox_with-eq-some store x j.inbox k s.inbox_valid found).1 in
            subst (λ w. IsResolved store file' x actor outcome w) same
              (
                with_resolved j x r,
                rw written (
                    load_unlocked_records store (with_resolved j x r) s'.events_valid s'.inbox_valid
                      fits),
                s',
                inbox_with-replace_inbox x r k j.inbox named found,
                str_eq_refl "RESOLVED",
                refl,
                refl,
              )
      ]
    ]

-- A `resolve_inbox` that returns, at a time that prints as a timestamp, leaves a sound file sound, and in
-- it the item resolved by the actor with the outcome.
pub resolve_inbox-IsResolved :
    (store : Identity) (disk : Disk) (now : String) (file file' : JournalFile)
    (x actor outcome : String) (i : InboxItem)
    → HoldsSound store file
    → is_timestamp now ≡ true
    → resolve_inbox store disk now file x actor outcome ≡ (ok i, file')
    → IsResolved store file' x actor outcome i
unfolding resolve_inbox
resolve_inbox-IsResolved store disk now file file' x actor outcome i before n h =
    let (j, checked, loaded, body) =
      locked-eq-ok store file file' (resolve_checks x actor outcome) _ i h in
    let (a, o) = resolve_checks-texts x actor outcome checked in
    resolve_loaded-IsResolved store disk now file file' x actor outcome j i loaded
      (IsSound-holds store file j before loaded) a o n body

-- A `resolve_inbox` of an item that is resolved: the same one gives the item, and another one raises.
resolved_agreed :
    (store : Identity) (disk : Disk) (now : String) (file : JournalFile) (x actor outcome : String)
    (i : InboxItem)
    → IsResolved store file x actor outcome i
    → resolve_checks x actor outcome ≡ ok tt
    → resolve_inbox store disk now file x actor outcome ≡ (ok i, file)
unfolding resolve_inbox
resolved_agreed store disk now file x actor outcome i (j, loaded, s, found, closed, a, o) checked =
    rw
      (
        checked,
        locked,
        loaded,
        found,
        resolve_loaded,
        closed,
        a,
        o,
        str_eq_refl actor,
        str_eq_refl outcome,
      )
      refl

resolved_differs :
    (store : Identity) (disk : Disk) (now : String) (file : JournalFile)
    (x actor outcome actor' outcome' : String) (i : InboxItem)
    → IsResolved store file x actor outcome i
    → (str_eq actor actor' && str_eq outcome outcome') ≡ false
    → (e : Error) × (resolve_inbox store disk now file x actor' outcome' ≡ (raise e, file))
unfolding resolve_inbox
resolved_differs store disk now file x actor outcome actor' outcome' i
      (j, loaded, s, found, closed, a, o) differ =
    elim (Result-cases (resolve_checks x actor' outcome')) [
      | inl (_, checked) ↦ (
        scheduler_journal_error "inbox resolution conflicts with existing result",
        rw (checked, locked, loaded, found, resolve_loaded, closed, a, o, differ) refl,
      )
      | inr (e, refused) ↦ (e, rw (refused, locked) refl)
    ]

-- Once a `resolve_inbox` on a sound file, at a time that prints as a timestamp, has returned an item, the
-- same call on the file that it leaves, at any time and whether or not the disk would take a write,
-- returns that item again and leaves the file; a call with another actor or another outcome raises and
-- leaves the file.
pub resolve_inbox_again :
    (store : Identity) (disk disk' : Disk) (now now' : String) (file file' : JournalFile)
    (x actor outcome : String) (i : InboxItem)
    → HoldsSound store file
    → is_timestamp now ≡ true
    → resolve_inbox store disk now file x actor outcome ≡ (ok i, file')
    → (resolve_inbox store disk' now' file' x actor outcome ≡ (ok i, file'))
      × ((actor' outcome' : String)
          → (actor ≢ actor') ⊎ (outcome ≢ outcome')
          → (e : Error) × (resolve_inbox store disk' now' file' x actor' outcome'
              ≡ (raise e, file')))
unfolding resolve_inbox
resolve_inbox_again store disk disk' now now' file file' x actor outcome i before n h =
    let settled = resolve_inbox-IsResolved store disk now file file' x actor outcome i before n h in
    let (_, checked, _, _) = locked-eq-ok store file file' (resolve_checks x actor outcome) _ i h in
    (
      resolved_agreed store disk' now' file' x actor outcome i settled checked,
      λ actor' outcome' other.
          resolved_differs store disk' now' file' x actor outcome actor' outcome' i settled
            (differ actor' outcome' other),
    )
  where
    differ :
        (actor' outcome' : String)
        → (actor ≢ actor') ⊎ (outcome ≢ outcome')
        → (str_eq actor actor' && str_eq outcome outcome') ≡ false
    differ actor' outcome' (inl ne) = ground (arith, str_eq_iff actor actor')
    differ actor' outcome' (inr ne) = ground (arith, str_eq_iff outcome outcome')
