-- ===== src/Session/Manager/History.antt =====
-- What a session's transition does to its file and its history.
use agf_orchestrator.Base.{
  ◌≡◌, refl, true, ◌||◌, Option, none, some, List, [], ◌∷◌, ◌++◌, String, arith, Bool-cases, inl,
  inr, ◌⊎◌,
}
use agf_orchestrator.Base.Raise.{Error, ok, raise, Result-cases}
use agf_orchestrator.Base.Text.{str_eq_refl}
use agf_orchestrator.Session.Models.{status_is, allowed_transitions, SessionEvent, Session}
use agf_orchestrator.Session.Manager.{
  SessionFile, document, Move, Call, load, operation_of, move_event, append_event, save, check_move,
  has_operation, move_loaded, transition,
}

-- What a transition that returns has done: it replayed an operation that the session's history holds, or
-- found the status already there, and wrote nothing; or it made one allowed transition with one event.
abbrev Moved : Call → SessionFile → Move → Session → SessionFile → Type 0
Moved call file m t file' =
    (s : Session) × (load file ≡ ok s)
    × (((has_operation (operation_of m) s.events || status_is s.status m.to_status) ≡ true)
          × (t ≡ s)
          × (file' ≡ file)
        ⊎ (allowed_transitions s.status m.to_status ≡ true)
          × (append_event call s m ≡ t)
          × (file' ≡ document t))

save-eq-ok :
    (disk : Option String) (file file' : SessionFile) (s t : Session)
    → save disk file s ≡ (ok t, file')
    → (s ≡ t) × (file' ≡ document t)
unfolding save
save-eq-ok none file file' s t h = (cc, cc)
save-eq-ok (some m) file file' s t h = absurd (cc)

move_loaded-Moved :
    (call : Call) (file file' : SessionFile) (m : Move) (s t : Session)
    → load file ≡ ok s
    → move_loaded call file m s ≡ (ok t, file')
    → Moved call file m t file'
unfolding move_loaded
move_loaded-Moved call file file' m s t loaded h =
    elim (Bool-cases (has_operation (operation_of m) s.events)) [
      | inl replayed ↦
          let h' = rw (replayed, move_loaded) at h in (s, loaded, inl (ground arith, cc, cc))
      | inr new ↦ elim (Bool-cases (status_is s.status m.to_status)) [
        | inl same ↦
            let h' = rw (new, move_loaded, same) at h in (s, loaded, inl (ground arith, cc, cc))
        | inr other ↦ elim (Bool-cases (allowed_transitions s.status m.to_status)) [
          | inr refused ↦ let h' = rw (new, move_loaded, other, refused) at h in absurd (cc)
          | inl edge ↦
              let (saved, written) =
                save-eq-ok call.disk file file' (append_event call s m) t
                  (rw (new, move_loaded, other, edge) at h) in
              (s, loaded, inr (edge, saved, written))
        ]
      ]
    ]

-- A `transition` that returns passed its checks, and replayed the operation, found the status or made one
-- allowed transition that it recorded.
pub transition-Moved :
    (call : Call) (file file' : SessionFile) (m : Move) (t : Session)
    → transition call file m ≡ (ok t, file')
    → (check_move m ≡ ok tt) × Moved call file m t file'
unfolding transition
transition-Moved call file file' m t h = elim (Result-cases (check_move m)) [
  | inr (e, failed) ↦ let h' = rw (failed, transition) at h in absurd (cc)
  | inl (_, checked) ↦ elim (Result-cases (load file)) [
    | inr (e, failed) ↦ let h' = rw (checked, transition, failed) at h in absurd (cc)
    | inl (s, loaded) ↦ (
      checked,
      move_loaded-Moved call file file' m s t loaded (rw (checked, transition, loaded) at h),
    )
  ]
]

save-eq-raise :
    (disk : Option String) (file file' : SessionFile) (s : Session) (e : Error)
    → save disk file s ≡ (raise e, file')
    → file' ≡ file
unfolding save
save-eq-raise none file file' s e h = absurd (cc)
save-eq-raise (some m) file file' s e h = cc

-- A `transition` that raises leaves the file as it was.
transition-eq-raise :
    (call : Call) (file file' : SessionFile) (m : Move) (e : Error)
    → transition call file m ≡ (raise e, file')
    → file' ≡ file
unfolding transition
transition-eq-raise call file file' m e h = elim (Result-cases (check_move m)) [
  | inr (e, failed) ↦ let h' = rw (failed, transition) at h in cc
  | inl (_, checked) ↦ elim (Result-cases (load file)) [
    | inr (e, failed) ↦ let h' = rw (checked, transition, failed) at h in cc
    | inl (s, loaded) ↦ elim (Bool-cases (has_operation (operation_of m) s.events)) [
      | inl replayed ↦
          let h' = rw (checked, transition, loaded, move_loaded, replayed) at h in absurd (cc)
      | inr new ↦ elim (Bool-cases (status_is s.status m.to_status)) [
        | inl same ↦
            let h' = rw (checked, transition, loaded, move_loaded, new, same) at h in absurd (cc)
        | inr other ↦ elim (Bool-cases (allowed_transitions s.status m.to_status)) [
          | inr refused ↦
              let h' = rw (checked, transition, loaded, move_loaded, new, other, refused) at h in cc
          | inl edge ↦
              save-eq-raise call.disk file file' (append_event call s m) e
                (rw (checked, transition, loaded, move_loaded, new, other, edge) at h)
        ]
      ]
    ]
  ]
]

has_operation-append :
    (x : String) (es : List SessionEvent) (e : SessionEvent)
    → e.operation_id ≡ x
    → has_operation x (es ++ e ∷ []) ≡ true
has_operation-append x [] e h = let k = str_eq_refl x in rw (h, k) refl
has_operation-append x (f ∷ es) e h = ground (arith, has_operation-append x es e h)

replays :
    (call : Call) (file : SessionFile) (m : Move) (s : Session)
    → check_move m ≡ ok tt
    → load file ≡ ok s
    → (has_operation (operation_of m) s.events || status_is s.status m.to_status) ≡ true
    → transition call file m ≡ (ok s, file)
unfolding transition
replays call file m s checked loaded known =
    elim (Bool-cases (has_operation (operation_of m) s.events)) [
      | inl replayed ↦ rw (checked, transition, loaded, move_loaded, replayed) refl
      | inr new ↦
          let same : status_is s.status m.to_status ≡ true = ground arith in
          rw (checked, transition, loaded, move_loaded, new, same) refl
    ]

-- The retry of a session transition that returned, at any time and whether or not the disk would take a
-- write, returns the same session and leaves the file alone.
pub transition_again :
    (call later : Call) (file file' : SessionFile) (m : Move) (t : Session)
    → transition call file m ≡ (ok t, file')
    → transition later file' m ≡ (ok t, file')
transition_again call later file file' m t h =
    let (checked, (s, loaded, how)) = transition-Moved call file file' m t h in
    elim how [
      | inl (known, same, kept) ↦ rw (same, kept) (replays later file m s checked loaded known)
      | inr (_, appended, written) ↦
          rw (written, ← appended)
            (replays later (document (append_event call s m)) m (append_event call s m) checked refl
              (ground
                (arith, has_operation-append (operation_of m) s.events (move_event call s m) refl)))
    ]
