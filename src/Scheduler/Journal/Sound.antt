-- ===== src/Scheduler/Journal/Sound.antt =====
-- What a journal's file holds: valid records, consecutive events, and no identifier twice.
use agf_orchestrator.Base.{
  ◌≡◌, refl, subst, true, false, ◌||◌, none, some, List, [], ◌∷◌, ◌++◌, map, String, arith,
  Bool-cases, inl, inr, find_first, get_last?,
}
use agf_orchestrator.Base.Int.{pos, ◌+ℤ◌, eq_ℤ→≡}
use agf_orchestrator.Base.Raise.{Result, ok, raise, ok-injective, Result-cases, >>=-eq-ok}
use agf_orchestrator.Base.Text.{str_eq, str_mem, str_distinct}
use agf_orchestrator.Scheduler.Loop.{SchedulerEvent}
use agf_orchestrator.Scheduler.Store.{Disk, Identity}
use agf_orchestrator.Scheduler.Journal.Records.{InboxItem, check_event, validate_inbox}
use agf_orchestrator.Scheduler.Journal.{
  Journal, JournalFile, absent, malformed, records, Saved, load_events, load_inbox, is_oversized,
  load_unlocked, save_unlocked, breaks_sequence, locked,
}

-- Each event's number follows the number before.
abbrev IsConsecutive : List SchedulerEvent → Type 0
IsConsecutive [] = Unit
IsConsecutive (e ∷ []) = Unit
IsConsecutive (e ∷ f ∷ es) = (f.sequence ≡ e.sequence +ℤ pos 1) × IsConsecutive (f ∷ es)

-- A journal that `_load_unlocked` accepts, with consecutive events and no identifier twice.
pub record IsSound (store : Identity) (j : Journal) : Type 0 where
  pub events_valid : load_events j.events ≡ ok tt
  pub inbox_valid : load_inbox store j.inbox ≡ ok tt
  pub bounded : is_oversized j ≡ false
  pub consecutive : IsConsecutive j.events
  pub events_distinct : str_distinct (map (λ (e : SchedulerEvent). e.event_id) j.events) ≡ true
  pub inbox_distinct : str_distinct (map (λ (i : InboxItem). i.inbox_id) j.inbox) ≡ true

-- The file's records are a sound journal; no file is the empty one.
abbrev pub HoldsSound : Identity → JournalFile → Type 0
HoldsSound store file = (j : Journal) × (load_unlocked store file ≡ ok j) × IsSound store j

-- What `_load_unlocked` checks of a journal.
abbrev IsLoadable : Identity → Journal → Type 0
IsLoadable store j =
    (load_events j.events ≡ ok tt) × (load_inbox store j.inbox ≡ ok tt) × (is_oversized j ≡ false)

-- What `_load_unlocked` has checked of the journal that it returns.
pub load_unlocked-eq-ok :
    (store : Identity) (file : JournalFile) (j : Journal)
    → load_unlocked store file ≡ ok j
    → IsLoadable store j
unfolding load_unlocked
load_unlocked-eq-ok store absent j h =
    subst (IsLoadable store) (ok-injective (record { events = []; inbox = [] }) j h)
      (refl, refl, refl)
load_unlocked-eq-ok store (malformed reason) j h = absurd (cc)
load_unlocked-eq-ok store (records k) j h =
    let (_, events_ok, h₁) = >>=-eq-ok (load_events k.events) _ h in
    let (_, inbox_ok, h₂) = >>=-eq-ok (load_inbox store k.inbox) _ h₁ in
    elim (Bool-cases (is_oversized k)) [
      | inl over ↦ let h₃ = rw over at h₂ in absurd (cc)
      | inr fits ↦
          subst (IsLoadable store) (ok-injective k j (rw fits at h₂)) (events_ok, inbox_ok, fits)
    ]

pub load_unlocked_records :
    (store : Identity) (j : Journal)
    → load_events j.events ≡ ok tt
    → load_inbox store j.inbox ≡ ok tt
    → is_oversized j ≡ false
    → load_unlocked store (records j) ≡ ok j
unfolding load_unlocked
load_unlocked_records store j e i b = rw (e, i, b) refl

pub load_events-append :
    (es : List SchedulerEvent) (e : SchedulerEvent)
    → load_events es ≡ ok tt
    → check_event e ≡ ok tt
    → load_events (es ++ e ∷ []) ≡ ok tt
unfolding load_events
load_events-append [] e h k = rw k refl
load_events-append (f ∷ es) e h k =
    let (_, first, rest) = >>=-eq-ok (check_event f) _ h in
    let more = load_events-append es e rest k in rw (first, more) refl

pub load_inbox-append :
    (store : Identity) (is : List InboxItem) (i : InboxItem)
    → load_inbox store is ≡ ok tt
    → validate_inbox store i ≡ ok tt
    → load_inbox store (is ++ i ∷ []) ≡ ok tt
unfolding load_inbox
load_inbox-append store [] i h k = rw k refl
load_inbox-append store (f ∷ is) i h k =
    let (_, first, rest) = >>=-eq-ok (validate_inbox store f) _ h in
    let more = load_inbox-append store is i rest k in rw (first, more) refl

pub IsConsecutive-append :
    (es : List SchedulerEvent) (e : SchedulerEvent)
    → IsConsecutive es
    → breaks_sequence e (get_last? es) ≡ false
    → IsConsecutive (es ++ e ∷ [])
IsConsecutive-append [] e c h = tt
IsConsecutive-append (f ∷ []) e c h = (eq_ℤ→≡ e.sequence (f.sequence +ℤ pos 1) (ground arith), tt)
IsConsecutive-append (f ∷ g ∷ es) e c h = (c.0, IsConsecutive-append (g ∷ es) e c.1 h)

module _ {ℓ} {A : Type ℓ} (key : A → String) where
  mem-append :
      (k : String) (xs : List A) (x : A)
      → str_mem k (map key (xs ++ x ∷ [])) ≡ (str_mem k (map key xs) || str_eq k (key x))
  mem-append k [] x = ground arith
  mem-append k (y ∷ xs) x = ground (arith, mem-append k xs x)

  -- A key that no element has can be added.
  pub distinct-append :
      (xs : List A) (x : A)
      → str_distinct (map key xs) ≡ true
      → find_first (λ y. str_eq (key y) (key x)) xs ≡ none
      → str_distinct (map key (xs ++ x ∷ [])) ≡ true
  distinct-append [] x d f = refl
  distinct-append (y ∷ xs) x d f = ground (arith, mem-append (key y) xs x, distinct-append xs x)

-- An operation under the lock that returns: its checks and the load went through.
pub locked-eq-ok {ℓ} :
    {A : Type ℓ} (store : Identity) (file file' : JournalFile) (checks : Result (Unit {0}))
    (body : Journal → Saved A) (a : A)
    → locked store file checks body ≡ (ok a, file')
    → (j : Journal) × (checks ≡ ok tt)
      × (load_unlocked store file ≡ ok j)
      × (body j ≡ (ok a, file'))
locked-eq-ok store file file' (raise e) body a h = absurd (cc)
locked-eq-ok store file file' (ok _) body a h = elim (Result-cases (load_unlocked store file)) [
  | inl (j, loaded) ↦ (j, refl, loaded, rw (loaded, locked) at h)
  | inr (e, failed) ↦ let h' = rw (failed, locked) at h in absurd (cc)
]

pub save_unlocked-eq-ok {ℓ} :
    {A : Type ℓ} (disk : Disk) (file file' : JournalFile) (j : Journal) (value a : A)
    → save_unlocked disk file j value ≡ (ok a, file')
    → (is_oversized j ≡ false) × (value ≡ a) × (file' ≡ records j)
unfolding save_unlocked
save_unlocked-eq-ok none file file' j value a h = elim (Bool-cases (is_oversized j)) [
  | inl over ↦ let h' = rw over at h in absurd (cc)
  | inr fits ↦ let h' = rw fits at h in (fits, cc, cc)
]
save_unlocked-eq-ok (some m) file file' j value a h = elim (Bool-cases (is_oversized j)) [
  | inl over ↦ let h' = rw over at h in absurd (cc)
  | inr fits ↦ let h' = rw fits at h in absurd (cc)
]
