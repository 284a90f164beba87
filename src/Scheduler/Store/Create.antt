-- ===== src/Scheduler/Store/Create.antt =====
-- `create` and its retries.
use agf_orchestrator.Base.{◌≡◌, refl, none, some, Bool-cases, inl, inr}
use agf_orchestrator.Base.Raise.{Error, ok, raise, Result-cases, >>=-eq-ok}
use agf_orchestrator.Scheduler.Models.{SchedulerState, validate}
use agf_orchestrator.Scheduler.Store.{
  File, absent, malformed, document, Disk, Identity, state_eq, load_unlocked, validate_identity,
  create_loaded, create_checked, create, load, as_store_error,
}
use agf_orchestrator.Scheduler.Store.Equality.{state_eq_refl, state_eq→≡}
use agf_orchestrator.Scheduler.Store.Laws.{
  load_document, save_unlocked-eq-ok, save_unlocked-eq-raise, as_store_error-eq-ok,
}

validate_identity-validate :
    (store : Identity) (s : SchedulerState) → validate_identity store s ≡ ok tt → validate s ≡ ok tt
unfolding validate_identity
validate_identity-validate store s h =
    let (_, valid, _) = >>=-eq-ok (as_store_error "" (validate s)) _ h in
    as_store_error-eq-ok "" (validate s) tt valid

load_unlocked-eq-some :
    (file : File) (s : SchedulerState) → load_unlocked file ≡ ok (some s) → file ≡ document s
unfolding load_unlocked
load_unlocked-eq-some absent s h = cc
load_unlocked-eq-some (malformed reason) s h = cc
load_unlocked-eq-some (document d) s h =
    let (_, _, e) = >>=-eq-ok (as_store_error "invalid scheduler state: " (validate d)) _ h in cc

created_file :
    (store : Identity) (disk : Disk) (file file' : File) (s t : SchedulerState)
    → create store disk file s ≡ (ok t, file')
    → (validate_identity store s ≡ ok tt) × (t ≡ s) × (file' ≡ document s)
unfolding create
created_file store disk file file' s t h = elim (Result-cases (validate_identity store s)) [
  | inr (e, failed) ↦ let h' = rw (failed, create_checked) at h in absurd (cc)
  | inl (_, named) ↦ elim (Result-cases (load_unlocked file)) [
    | inr (e, failed) ↦
        let h' = rw (named, create_checked, failed, create_loaded) at h in absurd (cc)
    | inl (none, missing) ↦
        let (_, e, held) =
          save_unlocked-eq-ok disk file file' s t
            (rw (named, create_checked, missing, create_loaded) at h) in
        (named, e, held)
    | inl (some d, found) ↦ elim (Bool-cases (state_eq d s)) [
      | inl same ↦
          let h' = rw (named, create_checked, found, create_loaded, same) at h in
          let e = state_eq→≡ d s same in
          let held = load_unlocked-eq-some file d found in (named, cc, cc)
      | inr other ↦
          let h' = rw (named, create_checked, found, create_loaded, other) at h in absurd (cc)
    ]
  ]
]

load_unlocked_document :
    (s : SchedulerState) → validate s ≡ ok tt → load_unlocked (document s) ≡ ok (some s)
unfolding load_unlocked
load_unlocked_document s h = rw h refl

create_same :
    (store : Identity) (disk : Disk) (s : SchedulerState)
    → validate_identity store s ≡ ok tt
    → create store disk (document s) s ≡ (ok s, document s)
unfolding create
create_same store disk s named =
    let found = load_unlocked_document s (validate_identity-validate store s named) in
    let same = state_eq_refl s in rw (named, create_checked, found, create_loaded, same) refl

-- A `create` that raises leaves the file as it was.
pub create-eq-raise :
    (store : Identity) (disk : Disk) (file file' : File) (s : SchedulerState) (e : Error)
    → create store disk file s ≡ (raise e, file')
    → file' ≡ file
unfolding create
create-eq-raise store disk file file' s e h = elim (Result-cases (validate_identity store s)) [
  | inr (e, failed) ↦ let h' = rw (failed, create_checked) at h in cc
  | inl (_, named) ↦ elim (Result-cases (load_unlocked file)) [
    | inr (e, failed) ↦ let h' = rw (named, create_checked, failed, create_loaded) at h in cc
    | inl (none, missing) ↦
        save_unlocked-eq-raise disk file file' s e
          (rw (named, create_checked, missing, create_loaded) at h)
    | inl (some d, found) ↦ elim (Bool-cases (state_eq d s)) [
      | inl same ↦
          let h' = rw (named, create_checked, found, create_loaded, same) at h in absurd (cc)
      | inr other ↦ let h' = rw (named, create_checked, found, create_loaded, other) at h in cc
    ]
  ]
]

-- A `create` that returns leaves the file with the state it was given, which loads again, and the same
-- `create` returns the same and changes nothing, whether or not the disk would take a write.
pub create_again :
    (store : Identity) (disk disk' : Disk) (file file' : File) (s t : SchedulerState)
    → create store disk file s ≡ (ok t, file')
    → (load file' ≡ ok s) × (t ≡ s) × (create store disk' file' s ≡ (ok s, file'))
create_again store disk disk' file file' s t h =
    let (named, e, held) = created_file store disk file file' s t h in
    let valid = validate_identity-validate store s named in
    (rw held (load_document s valid), e, rw held (create_same store disk' s named))
