-- ===== src/Campaign/Steps/Valid.antt =====
-- The states that a runner writes are valid again, while the log has room.
use Prim.Native.Nat.{◌^◌}
use native.Mathlib.Nat.{one-le-pow}
use agf_orchestrator.Base.{
  ℕ, suc, ◌+◌, ◌-◌, ◌*◌, ◌<◌, ◌≤◌, ◌≡◌, refl, List, [], ◌∷◌, ◌++◌, length, length-append, all, All,
  Option, none, some, arith, Bool-cases, inl, inr, ◌⊎◌, String, true, not, ◌&&◌, ltb, leb, ◌==◌,
  and_true,
}
use agf_orchestrator.Base.Raise.{ok}
use agf_orchestrator.Base.Text.{codes, has_text, is_nonempty, len_le, is_space}
use agf_orchestrator.Campaign.Models.{
  CampaignState, CampaignEvent, Calendar, validate, is_text, is_time, is_given, none_or,
  event_checks, status_value, retry_backoff, blocked_non_retryable, max_events,
}
use agf_orchestrator.Campaign.Models.Valid.{Parts, validate-Parts, validate_of_Parts}
use agf_orchestrator.Campaign.Steps.{
  append, next_event, or_else, exhausted, backed_off, retried, Runner, backoff_delay, least,
  bounds_are_valid,
}

has_text-is_nonempty : (s : String) → has_text s ≡ true → is_nonempty s ≡ true
unfolding has_text is_nonempty
has_text-is_nonempty s h = filled (codes s) h
  where
    filled : (cs : List ℕ) → not (all is_space cs) ≡ true → not (length cs == 0) ≡ true
    filled [] h = h
    filled (c ∷ cs) h = ground arith

is_text-is_given : (s : String) → is_text s ≡ true → is_given (some s) ≡ true
is_text-is_given s h = has_text-is_nonempty s (and_true (has_text s) (len_le s 4000) h).0

is_time-print : (calendar : Calendar) (t : ℕ) → is_time calendar (calendar.print t) ≡ true
is_time-print calendar t = rw (calendar.parse-print t)

or_else-is_text :
    (o : Option String) (d : String)
    → none_or is_text o ≡ true
    → is_text d ≡ true
    → is_text (or_else o d) ≡ true
or_else-is_text none d h k = k
or_else-is_text (some s) d h k = elim (Bool-cases (is_nonempty s)) [
  | inl given ↦ rw given h
  | inr empty ↦ rw empty k
]

-- The tests on a log with one more event.
event_checks-append :
    (calendar : Calendar) (n : ℕ) (es : List CampaignEvent) (e : CampaignEvent)
    → All (λ c. c.0 ≡ true) (event_checks calendar n es)
    → e.sequence ≡ n + length es
    → has_text e.event_type ≡ true
    → has_text e.summary ≡ true
    → is_time calendar e.timestamp ≡ true
    → All (λ c. c.0 ≡ true) (event_checks calendar n (es ++ e ∷ []))
event_checks-append calendar n [] e h seq kind text time = (ground arith, (time, tt))
event_checks-append calendar n (x ∷ es) e h seq kind text time =
    (h.0, (h.1.0, event_checks-append calendar (suc n) es e h.1.1 (omega arith) kind text time))

module _ (calendar : Calendar) (s : CampaignState) (p : Parts calendar s) (at : ℕ)
    (kind status reason : String) (kinded : has_text kind ≡ true)
    (reasoned : has_text reason ≡ true) (room : s.event_sequence < 500) where
  append-log :
      All
        (λ c. c.0 ≡ true)
        (event_checks calendar 1 (append calendar at s kind status reason).events)
  append-log =
      let counters = p.counters in
      event_checks-append calendar 1 s.events (next_event calendar at s kind status reason) p.log
        (ground (arith, counters)) kinded reasoned (is_time-print calendar at)

  append-counted :
      (leb (length (append calendar at s kind status reason).events) max_events
        && length (append calendar at s kind status reason).events == s.event_sequence + 1)
      ≡ true
  append-counted =
      let counters = p.counters in
      let longer = length-append {0} s.events (next_event calendar at s kind status reason ∷ []) in
      ground (arith, counters, longer)

exhausted_kind : has_text "RETRY_EXHAUSTED" ≡ true
unfolding has_text is_space
exhausted_kind = refl

backoff_kind : has_text "RETRY_BACKOFF" ≡ true
unfolding has_text is_space
backoff_kind = refl

boundary_text : is_text "campaign-external-boundary" ≡ true
unfolding has_text is_space len_le
boundary_text = refl

remains_text : is_text "retry budget remains" ≡ true
unfolding has_text is_space len_le
remains_text = refl

module _ (calendar : Calendar) (s : CampaignState) (p : Parts calendar s) (at : ℕ) (reason : String)
    (texted : is_text reason ≡ true) (room : s.event_sequence < 500) where
  reasoned : has_text reason ≡ true
  reasoned = (and_true (has_text reason) (len_le reason 4000) texted).0

  exhausted-Parts : Parts calendar (exhausted calendar at s reason)
  exhausted-Parts =
      let t = p.texts in
      let c = p.counters in
      let now_time = is_time-print calendar at in
      let counted =
        append-counted calendar s p at "RETRY_EXHAUSTED" "BLOCKED_NON_RETRYABLE" reason
          exhausted_kind reasoned room in
      record {
        texts = ground (arith, t, now_time, texted);
        lease = (refl, tt);
        schedule = (refl, tt);
        counters = ground (arith, c, counted);
        log =
            append-log calendar s p at "RETRY_EXHAUSTED" "BLOCKED_NON_RETRYABLE" reason
              exhausted_kind reasoned room;
      }

  backed_off-Parts :
      (next : ℕ)
      → s.retry_count < s.retry_budget
      → Parts calendar (backed_off calendar at next s reason)
  backed_off-Parts next within =
      let t = p.texts in
      let c = p.counters in
      let now_time = is_time-print calendar at in
      let next_time = is_time-print calendar next in
      let counted =
        append-counted calendar s p at "RETRY_BACKOFF" (status_value retry_backoff) reason
          backoff_kind reasoned room in
      let resource =
        or_else-is_text s.resource "campaign-external-boundary" (ground (arith, t)) boundary_text in
      let condition =
        or_else-is_text s.expected_condition "retry budget remains" (ground (arith, t))
          remains_text in
      record {
        texts = ground (arith, t, now_time, next_time, texted, resource, condition);
        lease = (refl, tt);
        schedule = ground (
          arith,
          has_text-is_nonempty reason reasoned,
          is_text-is_given (or_else s.resource "campaign-external-boundary") resource,
          is_text-is_given (or_else s.expected_condition "retry budget remains") condition,
          calendar.print_filled at,
          calendar.print_filled next,
        );
        counters = ground (arith, c, counted);
        log =
            append-log calendar s p at "RETRY_BACKOFF" (status_value retry_backoff) reason
              backoff_kind reasoned room;
      }

-- What `_schedule_retry` saves: the next retry within the budget, or the end of the campaign.
abbrev pub IsRetry : Calendar → Runner → ℕ → CampaignState → CampaignState → Type 0
IsRetry calendar r at s u =
    ((s.retry_count < s.retry_budget)
      × (u.status ≡ retry_backoff)
      × (u.retry_count ≡ s.retry_count + 1)
      × (u.next_check_at ≡ some (calendar.print (at + backoff_delay r (s.retry_count + 1)))))
    ⊎ ((s.retry_count ≡ s.retry_budget)
        × (u.status ≡ blocked_non_retryable)
        × (u.retry_count ≡ s.retry_count))

-- On a valid campaign with fewer than 500 events and a reason that is a text, `_schedule_retry` builds a
-- valid campaign: within the budget one in RETRY_BACKOFF with one more retry and the next check after the
-- backoff of that retry, and else, exactly when the budget is used up, one that is BLOCKED_NON_RETRYABLE
-- with the same count.
pub retried_lem :
    (calendar : Calendar) (r : Runner) (at : ℕ) (s : CampaignState) (reason : String)
    → validate calendar s ≡ ok tt
    → is_text reason ≡ true
    → s.event_sequence < 500
    → (u : CampaignState) × (retried calendar r at s reason ≡ ok u)
      × (validate calendar u ≡ ok tt)
      × IsRetry calendar r at s u
unfolding retried
retried_lem calendar r at s reason valid texted room =
    let p = validate-Parts calendar s valid in
    let c = p.counters in
    elim (Bool-cases (ltb s.retry_budget (s.retry_count + 1))) [
      | inl spent ↦ (
        exhausted calendar at s reason,
        rw spent,
        validate_of_Parts calendar (exhausted calendar at s reason)
            (exhausted-Parts calendar s p at reason texted room),
        inr (ground (arith, c), refl, omega arith),
      )
      | inr within ↦
          let next = at + backoff_delay r (s.retry_count + 1) in
          (
            backed_off calendar at next s reason,
            rw (within, calendar.parse-print at),
            validate_of_Parts calendar (backed_off calendar at next s reason)
                (backed_off-Parts calendar s p at reason texted room next (ground arith)),
            inl (ground arith, refl, refl, refl),
          )
    ]

-- With valid bounds, the backoff before any retry is at least the base and at most the maximum.
pub backoff_delay_bounds :
    (r : Runner) (count : ℕ)
    → bounds_are_valid r ≡ true
    → (r.base_backoff_seconds ≤ backoff_delay r count)
      × (backoff_delay r count ≤ r.max_backoff_seconds)
unfolding backoff_delay
backoff_delay_bounds r count valid =
    let k = least (count - 1) 10 in
    let one = one-le-pow k 2 (omega arith) in
    let wide : r.base_backoff_seconds ≤ r.base_backoff_seconds * 2 ^ k = grind arith in
    (ground arith, ground arith)
