-- ===== src/Session/Manager/Log.antt =====
-- The history of a session is a log of its status.
use agf_orchestrator.Base.{
  ◌≡◌, refl, sym, ap, ◌∙◌, subst, Bool, true, false, not, ◌||◌, some, List, [], ◌∷◌, ◌++◌, arith,
  inl, inr, get_last?,
}
use agf_orchestrator.Base.Raise.{ok, raise_if, ok-injective, ◌>>◌, >>=-eq-ok, session_manager_error}
use agf_orchestrator.Base.Text.{str_mem}
use agf_orchestrator.Session.Models.{
  SessionStatus, status_value, status_is, no_justified_work, completed, audited, SessionEvent,
  Session,
}
use agf_orchestrator.Session.Manager.{
  SessionFile, Move, Call, load, move_event, append_event, check_move, transition, actors,
}
use agf_orchestrator.Session.Manager.History.{transition-Moved}

-- Each event starts from the status that the event before led to.
abbrev pub IsChain : List SessionEvent → Type 0
IsChain [] = Unit
IsChain (e ∷ []) = Unit
IsChain (e ∷ f ∷ es) = (f.from_status ≡ some e.to_status) × IsChain (f ∷ es)

-- The events are a chain that leads to the session's status, which is also its stage.
abbrev pub IsLogged : Session → Type 0
IsLogged s =
    IsChain s.events
    × ((e : SessionEvent) → get_last? s.events ≡ some e → e.to_status ≡ status_value s.status)
    × (s.current_stage ≡ status_value s.status)

get_last?-append : (es : List SessionEvent) (e : SessionEvent) → get_last? (es ++ e ∷ []) ≡ some e
get_last?-append [] e = refl
get_last?-append (f ∷ []) e = refl
get_last?-append (f ∷ g ∷ es) e = get_last?-append (g ∷ es) e

IsChain-append :
    (es : List SessionEvent) (e : SessionEvent)
    → IsChain es
    → ((l : SessionEvent) → get_last? es ≡ some l → e.from_status ≡ some l.to_status)
    → IsChain (es ++ e ∷ [])
IsChain-append [] e c h = tt
IsChain-append (f ∷ []) e c h = (h f refl, tt)
IsChain-append (f ∷ g ∷ es) e c h = (c.0, IsChain-append (g ∷ es) e c.1 h)

append_event-IsLogged :
    (call : Call) (s : Session) (m : Move) → IsLogged s → IsLogged (append_event call s m)
append_event-IsLogged call s m (chain, ends, stage) = (
  IsChain-append s.events (move_event call s m) chain (λ l last. ap some (sym (ends l last))),
  λ e last.
      let same : some (move_event call s m) ≡ some e =
        sym (get_last?-append s.events (move_event call s m)) ∙ last in
      cc,
  refl,
)

-- A session transition that returns keeps the history a chain of events that leads to the session's
-- status, and the file loads as the session returned.
pub transition-IsLogged :
    (call : Call) (file file' : SessionFile) (m : Move) (s t : Session)
    → load file ≡ ok s
    → IsLogged s
    → transition call file m ≡ (ok t, file')
    → IsLogged t × (load file' ≡ ok t)
transition-IsLogged call file file' m s t loaded logged h =
    let (_, (s', loaded', how)) = transition-Moved call file file' m t h in
    let same : s ≡ s' = ok-injective s s' (sym loaded ∙ loaded') in
    elim how [
      | inl (_, replayed, kept) ↦
          (subst IsLogged (same ∙ sym replayed) logged, rw (kept, replayed) loaded')
      | inr (_, appended, written) ↦ (
        subst IsLogged appended (append_event-IsLogged call s' m (subst IsLogged same logged)),
        ap load written,
      )
    ]

-- The statuses that need evidence, which `transition` does not take.
abbrev is_guarded : SessionStatus → Bool
is_guarded s = status_is s no_justified_work || (status_is s completed || status_is s audited)

check_move-unguarded : (m : Move) → check_move m ≡ ok tt → is_guarded m.to_status ≡ false
unfolding check_move
check_move-unguarded m h =
    let (_, _, h₁) =
      >>=-eq-ok
        (raise_if (not (str_mem m.actor actors)) (session_manager_error "invalid event actor")) _
        h in
    unguarded (status_is m.to_status no_justified_work) (status_is m.to_status completed)
      (status_is m.to_status audited) h₁
  where
    unguarded :
        (a b c : Bool)
        → (raise_if a
              (session_manager_error "no-work disposition requires bound assessment evidence")
            >> (raise_if b (
                  session_manager_error
                    "completion requires verified Objective acceptance evidence")
                >> raise_if c
                    (session_manager_error "audit disposition requires read-only evidence")))
          ≡ ok tt
        → (a || (b || c)) ≡ false
    unguarded a b c k = ground arith

-- `transition` never writes a session as COMPLETED, AUDITED or NO_JUSTIFIED_WORK: a call that returns one
-- has left the file as it was.
pub transition-unguarded :
    (call : Call) (file file' : SessionFile) (m : Move) (t : Session)
    → transition call file m ≡ (ok t, file')
    → is_guarded t.status ≡ true
    → file' ≡ file
transition-unguarded call file file' m t h guarded =
    let (checked, (s, loaded, how)) = transition-Moved call file file' m t h in
    elim how [
      | inl (_, _, kept) ↦ kept
      | inr (_, appended, _) ↦
          let to : m.to_status ≡ t.status = ap (λ (w : Session). w.status) appended in
          let free = check_move-unguarded m checked in
          let free' : is_guarded t.status ≡ false = rw (← to) free in absurd (cc)
    ]
