-- ===== src/Scheduler/Journal/Resolve.antt =====
-- The resolution of an inbox item.
use agf_orchestrator.Base.{
  ◌≡◌, refl, true, not, ◌||◌, some, List, [], ◌∷◌, map, String, Bool-cases, inl, inr, if◌then◌else◌,
}
use agf_orchestrator.Base.Raise.{ok, >>=-eq-ok, raise_if, scheduler_journal_error}
use agf_orchestrator.Base.Text.{
  str_eq, str_eq_iff, str_mem, is_timestamp, starts_with, is_nonempty, is_record_id,
}
use agf_orchestrator.Scheduler.Store.{Identity}
use agf_orchestrator.Scheduler.Journal.Records.{
  InboxItem, validate_inbox, validate_head, validate_decision, validate_resolution, journal_text,
}
use agf_orchestrator.Scheduler.Journal.{load_inbox, inbox_with, resolved_item, replace_inbox}

validate_head-resolved :
    (store : Identity) (i : InboxItem) (actor outcome now : String)
    → validate_head store i ≡ ok tt
    → validate_head store (resolved_item i actor outcome now) ≡ ok tt
unfolding validate_head
validate_head-resolved store i actor outcome now h =
    let (_, a, h₁) =
      >>=-eq-ok
        (raise_if
          (not (str_eq i.project_id store.project_id)
            || not (str_eq i.scheduler_id store.scheduler_id))
          (scheduler_journal_error "inbox identity does not match journal"))
        _ h in
    let (_, b, h₂) =
      >>=-eq-ok
        (raise_if (not (is_record_id i.inbox_id) || not (starts_with i.inbox_id "inbox-"))
          (scheduler_journal_error "inbox ID is invalid"))
        _ h₁ in
    let (_, _, h₃) =
      >>=-eq-ok
        (raise_if (not (str_mem i.status ("OPEN" ∷ "RESOLVED" ∷ [])))
          (scheduler_journal_error "inbox status is invalid"))
        _ h₂ in
    rw (a, b) h₃

validate_resolution-resolved :
    (i : InboxItem) (actor outcome now : String)
    → journal_text actor ≡ ok tt
    → journal_text outcome ≡ ok tt
    → is_timestamp now ≡ true
    → validate_resolution (resolved_item i actor outcome now) ≡ ok tt
unfolding validate_resolution
validate_resolution-resolved i actor outcome now a o n = rw (a, o, n) refl

pub validate_inbox-resolved :
    (store : Identity) (i : InboxItem) (actor outcome now : String)
    → validate_inbox store i ≡ ok tt
    → journal_text actor ≡ ok tt
    → journal_text outcome ≡ ok tt
    → is_timestamp now ≡ true
    → validate_inbox store (resolved_item i actor outcome now) ≡ ok tt
unfolding validate_inbox
validate_inbox-resolved store i actor outcome now h a o n =
    let (_, head, h₁) = >>=-eq-ok (validate_head store i) _ h in
    let (_, body, h₂) =
      >>=-eq-ok (if is_nonempty i.decision_id then validate_decision i else ok tt) _ h₁ in
    let kept = validate_head-resolved store i actor outcome now head in
    let resolution = validate_resolution-resolved i actor outcome now a o n in
    let body' : (if is_nonempty i.decision_id
          then validate_decision (resolved_item i actor outcome now)
          else ok tt)
        ≡ ok tt =
      body in
    rw (kept, body', resolution) refl

pub replace_inbox-load_inbox :
    (store : Identity) (x : String) (r : InboxItem) (is : List InboxItem)
    → load_inbox store is ≡ ok tt
    → validate_inbox store r ≡ ok tt
    → load_inbox store (replace_inbox x r is) ≡ ok tt
unfolding load_inbox
replace_inbox-load_inbox store x r [] h k = refl
replace_inbox-load_inbox store x r (i ∷ is) h k =
    let (_, first, rest) = >>=-eq-ok (validate_inbox store i) _ h in
    let more = replace_inbox-load_inbox store x r is rest k in
    elim (Bool-cases (str_eq i.inbox_id x)) [
      | inl hit ↦ rw (hit, k, more) refl
      | inr miss ↦ rw (miss, first, more) refl
    ]

pub replace_inbox-ids :
    (x : String) (r : InboxItem) (is : List InboxItem)
    → r.inbox_id ≡ x
    → map (λ (i : InboxItem). i.inbox_id) (replace_inbox x r is)
      ≡ map (λ (i : InboxItem). i.inbox_id) is
replace_inbox-ids x r [] e = refl
replace_inbox-ids x r (i ∷ is) e =
    let more = replace_inbox-ids x r is e in
    elim (Bool-cases (str_eq i.inbox_id x)) [
      | inl hit ↦ let same = (str_eq_iff i.inbox_id x).0 hit in rw (hit, more, e, same) refl
      | inr miss ↦ rw (miss, more) refl
    ]

-- What a look-up finds is valid and has the identifier.
pub inbox_with-eq-some :
    (store : Identity) (x : String) (is : List InboxItem) (i : InboxItem)
    → load_inbox store is ≡ ok tt
    → inbox_with x is ≡ some i
    → (validate_inbox store i ≡ ok tt) × (i.inbox_id ≡ x)
unfolding load_inbox
inbox_with-eq-some store x [] i h f = absurd (cc)
inbox_with-eq-some store x (j ∷ is) i h f =
    let (_, first, rest) = >>=-eq-ok (validate_inbox store j) _ h in
    elim (Bool-cases (str_eq j.inbox_id x)) [
      | inl hit ↦
          let f' = rw hit at f in
          let e : j ≡ i = cc in (rw (← e) first, rw (← e) ((str_eq_iff j.inbox_id x).0 hit))
      | inr miss ↦ inbox_with-eq-some store x is i rest (rw miss at f)
    ]
