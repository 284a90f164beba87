-- ===== src/Scheduler/Store/Laws.antt =====
-- What the store's operations leave in the file, and their retries.
use agf_orchestrator.Base.{
  ◌≡◌, refl, sym, ap, true, false, none, some, String, Bool-cases, inl, inr, ◌⊎◌,
}
use agf_orchestrator.Base.Raise.{Error, Result, ok, raise, ok-injective, Result-cases}
use agf_orchestrator.Scheduler.Models.{
  SchedulerState, SchedulerStatus, status_is, validate, transition,
}
use agf_orchestrator.Scheduler.Models.Lifecycle.{transition_iff, transition-validate}
use agf_orchestrator.Scheduler.Store.Equality.{status_is_refl, status_is→≡}
use agf_orchestrator.Scheduler.Store.{
  File, absent, malformed, document, Disk, as_store_error, load_unlocked, save_unlocked, load,
  transition_loaded, transition_stored,
}

pub as_store_error-eq-ok {ℓ} :
    {A : Type ℓ} (prefix : String) (r : Result A) (a : A)
    → as_store_error prefix r ≡ ok a
    → r ≡ ok a
as_store_error-eq-ok prefix (ok b) a h = h
as_store_error-eq-ok prefix (raise e) a h = cc

-- `load` returns the state of the document, and only a valid one.
pub load-eq-ok :
    (file : File) (s : SchedulerState)
    → load file ≡ ok s
    → (file ≡ document s) × (validate s ≡ ok tt)
unfolding load
load-eq-ok absent s h = cc
load-eq-ok (malformed reason) s h = cc
load-eq-ok (document d) s h = elim (Result-cases (validate d)) [
  | inl (_, valid) ↦
      let h' = rw (valid, load_unlocked) at h in (cc, rw (← ok-injective d s h') valid)
  | inr (e, failed) ↦ let h' = rw (failed, load_unlocked) at h in absurd (cc)
]

pub load_document : (s : SchedulerState) → validate s ≡ ok tt → load (document s) ≡ ok s
unfolding load
load_document s h = rw h refl

pub save_unlocked-eq-ok :
    (disk : Disk) (file file' : File) (s t : SchedulerState)
    → save_unlocked disk file s ≡ (ok t, file')
    → (disk ≡ none) × (t ≡ s) × (file' ≡ document s)
unfolding save_unlocked
save_unlocked-eq-ok none file file' s t h = (refl, cc, cc)
save_unlocked-eq-ok (some m) file file' s t h = absurd (cc)

pub save_unlocked-eq-raise :
    (disk : Disk) (file file' : File) (s : SchedulerState) (e : Error)
    → save_unlocked disk file s ≡ (raise e, file')
    → file' ≡ file
unfolding save_unlocked
save_unlocked-eq-raise none file file' s e h = absurd (cc)
save_unlocked-eq-raise (some m) file file' s e h = cc

-- What a stored transition that returns has done: nothing if the status was the requested one, and else
-- one transition of the loaded state, which the file now holds.
pub transition_stored-eq-ok :
    (disk : Disk) (file file' : File) (to : SchedulerStatus) (t : SchedulerState)
    → transition_stored disk file to ≡ (ok t, file')
    → (s : SchedulerState) × (load file ≡ ok s)
      × (((status_is s.status to ≡ true) × (t ≡ s) × (file' ≡ file))
          ⊎ ((status_is s.status to ≡ false) × (transition s to ≡ ok t) × (file' ≡ document t)))
unfolding transition_stored
transition_stored-eq-ok disk file file' to t h = elim (Result-cases (load file)) [
  | inr (e, failed) ↦ let h' = rw (failed, transition_loaded) at h in absurd (cc)
  | inl (s, loaded) ↦ elim (Bool-cases (status_is s.status to)) [
    | inl same ↦
        let h' = rw (loaded, transition_loaded, same) at h in (s, loaded, inl (same, cc, cc))
    | inr other ↦ elim (Result-cases (transition s to)) [
      | inr (e, failed) ↦ let h' = rw (loaded, transition_loaded, other, failed) at h in absurd (cc)
      | inl (u, moved) ↦
          let h' : save_unlocked disk file u ≡ (ok t, file') =
            rw (loaded, transition_loaded, other, moved) at h in
          let (_, e, held) = save_unlocked-eq-ok disk file file' u t h' in
          (s, loaded, inr (other, rw e moved, rw e held))
    ]
  ]
]

-- A stored transition that raises leaves the file as it was.
pub transition_stored-eq-raise :
    (disk : Disk) (file file' : File) (to : SchedulerStatus) (e : Error)
    → transition_stored disk file to ≡ (raise e, file')
    → file' ≡ file
unfolding transition_stored
transition_stored-eq-raise disk file file' to e h = elim (Result-cases (load file)) [
  | inr (e, failed) ↦ let h' = rw (failed, transition_loaded) at h in cc
  | inl (s, loaded) ↦ elim (Bool-cases (status_is s.status to)) [
    | inl same ↦ let h' = rw (loaded, transition_loaded, same) at h in absurd (cc)
    | inr other ↦ elim (Result-cases (transition s to)) [
      | inr (e, failed) ↦ let h' = rw (loaded, transition_loaded, other, failed) at h in cc
      | inl (u, moved) ↦
          save_unlocked-eq-raise disk file file' u e
            (rw (loaded, transition_loaded, other, moved) at h)
    ]
  ]
]

settled :
    (disk : Disk) (file : File) (to : SchedulerStatus) (t : SchedulerState)
    → load file ≡ ok t
    → t.status ≡ to
    → (load file ≡ ok t) × (t.status ≡ to) × (transition_stored disk file to ≡ (ok t, file))
unfolding transition_stored
settled disk file to t loaded reached =
    let same : status_is t.status to ≡ true = rw reached (status_is_refl to) in
    (loaded, reached, rw (loaded, transition_loaded, same) refl)

-- After a stored transition that returns, the file loads as the state returned, which has the requested
-- status, and the same transition again returns the same state and writes nothing.
pub transition_stored_again :
    (disk disk' : Disk) (file file' : File) (to : SchedulerStatus) (t : SchedulerState)
    → transition_stored disk file to ≡ (ok t, file')
    → (load file' ≡ ok t) × (t.status ≡ to) × (transition_stored disk' file' to ≡ (ok t, file'))
transition_stored_again disk disk' file file' to t h =
    let (s, loaded, how) = transition_stored-eq-ok disk file file' to t h in
    let (held, valid) = load-eq-ok file s loaded in
    elim how [
      | inl (same, e, kept) ↦
          settled disk' file' to t (rw (kept, e) loaded) (rw e (status_is→≡ s.status to same))
      | inr (_, moved, written) ↦
          settled disk' file' to t (rw written (load_document t (transition-validate s t to moved)))
            (sym (ap (λ (w : SchedulerState). w.status) ((transition_iff s t to).0 moved).2))
    ]
