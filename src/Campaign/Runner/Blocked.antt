-- ===== src/Campaign/Runner/Blocked.antt =====
-- A runner whose campaign waits for what never comes: the retries are used up, and it stops.
use agf_orchestrator.Base.{
  ℕ, zero, suc, ◌+◌, ◌-◌, ◌*◌, ◌<◌, ◌≤◌, ◌≡◌, refl, sym, ◌∙◌, subst, some, arith, inl, inr, true,
  false,
}
use agf_orchestrator.Base.Raise.{Result, ok}
use agf_orchestrator.Campaign.Models.{
  CampaignState, validate_identity, is_waiting, retry_backoff, blocked_non_retryable,
}
use agf_orchestrator.Campaign.World.{World, document, now}
use agf_orchestrator.Campaign.Store.{or_empty}
use agf_orchestrator.Campaign.Steps.{Runner, bounds_are_valid, backoff_delay}
use agf_orchestrator.Campaign.Steps.Valid.{backoff_delay_bounds}
use agf_orchestrator.Campaign.Runner.{Setup, returned, key, tick, rounds, run_forever, unguarded}
use agf_orchestrator.Campaign.Runner.Quiet.{Quiet, ticked_on, IsNext, IsTicked, tick_retries}

-- The world of the next round.
abbrev pub slept : CampaignState → World → World
slept a w = record (ticked_on a w) { clock = λ n. w.clock (suc (suc (suc n))) }

rounds-again :
    (u : Setup) (n wake_at : ℕ) (a : CampaignState) (w : World)
    → tick u w ≡ (ok a, ticked_on a w)
    → a.status ≡ retry_backoff
    → a.next_check_at ≡ some (u.calendar.print wake_at)
    → rounds u true (suc n) w ≡ rounds u true n (slept a w)
unfolding rounds now
rounds-again u n wake_at a w run backing check =
    rw (run, backing, check, u.calendar.parse-print wake_at)

rounds-stop :
    (u : Setup) (n : ℕ) (a : CampaignState) (w : World)
    → tick u w ≡ (ok a, ticked_on a w)
    → a.status ≡ blocked_non_retryable
    → rounds u true n w ≡ (ok a, ticked_on a w)
unfolding rounds
rounds-stop u zero a w run blocked = run
rounds-stop u (suc n) a w run blocked = rw (run, blocked)

-- A campaign that stops for good, in the result and in the file.
abbrev pub IsBlocked : Result CampaignState × World → Type 0
IsBlocked r =
    (c : CampaignState) × (r.0 ≡ ok c)
    × (r.1.file ≡ document c)
    × (c.status ≡ blocked_non_retryable)
    × (c.retry_count ≡ c.retry_budget)

-- Between a retry and the next tick, the longest wait passes.
abbrev pub IsPatient : Runner → World → Type 0
IsPatient r w = (k : ℕ) → w.clock (1 + 3 * k) + r.max_backoff_seconds ≤ w.clock (3 + 3 * k)

slept-IsPatient :
    (r : Runner) (a : CampaignState) (w : World) → IsPatient r w → IsPatient r (slept a w)
slept-IsPatient r a w patient k =
    let here : suc (suc (suc (1 + 3 * k))) ≡ 1 + 3 * suc k = omega arith in
    let there : suc (suc (suc (3 + 3 * k))) ≡ 3 + 3 * suc k = omega arith in
    rw (here, there) (patient (suc k))

module _ (u : Setup) (never : (c : CampaignState) → u.probe c ≡ returned false) where
  -- A campaign that waits, with the time of its next check.
  record Waits (n : ℕ) (s : CampaignState) (w : World) : Type 0 where
    identity : validate_identity u.calendar (key u) s ≡ ok tt
    waiting : is_waiting s.status ≡ true
    next : ℕ
    scheduled : u.calendar.parse (or_empty s.next_check_at) ≡ some next
    due : next ≤ w.clock 0
    patient : IsPatient u.runner w
    room : s.event_sequence + (s.retry_budget - s.retry_count) < 500
    enough : s.retry_budget - s.retry_count ≤ n
    quiet : Quiet w
    file : w.file ≡ document s

  ticks-Waits : (n : ℕ) (s : CampaignState) (w : World) → Waits n s w → IsTicked u s w
  ticks-Waits n s w h =
      let room = h.room in
      tick_retries u never s h.next w h.identity h.waiting h.scheduled h.due (omega arith) h.quiet
        h.file

  stops :
      (n : ℕ) (s a : CampaignState) (w : World)
      → tick u w ≡ (ok a, ticked_on a w)
      → IsNext s a
      → s.retry_count ≡ s.retry_budget
      → a.status ≡ blocked_non_retryable
      → a.retry_count ≡ s.retry_count
      → IsBlocked (rounds u true n w)
  stops n s a w run is_next spent blocked count =
      rw (rounds-stop u n a w run blocked) (a, refl, refl, blocked, count ∙ spent ∙ sym is_next.1)

  Waits-again :
      (n wake_at : ℕ) (s a : CampaignState) (w : World)
      → Waits (suc n) s w
      → validate_identity u.calendar (key u) a ≡ ok tt
      → IsNext s a
      → s.retry_count < s.retry_budget
      → a.status ≡ retry_backoff
      → a.retry_count ≡ s.retry_count + 1
      → a.next_check_at ≡ some (u.calendar.print wake_at)
      → wake_at ≤ w.clock 1 + u.runner.max_backoff_seconds
      → Waits n a (slept a w)
  Waits-again n wake_at s a w h identity is_next within backing count check soon =
      let room = h.room in
      let enough = h.enough in
      let passes = h.patient 0 in
      record {
        identity = identity;
        waiting = rw backing;
        next = wake_at;
        scheduled = rw (check, u.calendar.parse-print wake_at);
        due = omega arith;
        patient = slept-IsPatient u.runner a w h.patient;
        room = omega (arith, is_next);
        enough = omega (arith, is_next);
        quiet = record {
          free = λ n. h.quiet.free (suc (suc (suc n)));
          alone = λ n. h.quiet.alone (suc (suc n));
          working = λ n. h.quiet.working (suc n);
          undeferred = h.quiet.undeferred;
          unlinked = h.quiet.unlinked;
        };
        file = refl;
      }

  rounds-IsBlocked :
      (bounded : bounds_are_valid u.runner ≡ true) (n : ℕ) (s : CampaignState) (w : World)
      → Waits n s w
      → IsBlocked (rounds u true n w)
  rounds-IsBlocked bounded zero s w h =
      let (a, run, identity, is_next, is_retry) = ticks-Waits zero s w h in
      let enough = h.enough in
      elim is_retry [
        | inl (within, _, _, _) ↦ absurd (omega arith)
        | inr (spent, blocked, count) ↦ stops zero s a w run is_next spent blocked count
      ]
  rounds-IsBlocked bounded (suc n) s w h =
      let (a, run, identity, is_next, is_retry) = ticks-Waits (suc n) s w h in
      let wake_at = w.clock 1 + backoff_delay u.runner (s.retry_count + 1) in
      let bound = (backoff_delay_bounds u.runner (s.retry_count + 1) bounded).1 in
      elim is_retry [
        | inl (within, backing, count, check) ↦
            subst IsBlocked (sym (rounds-again u n wake_at a w run backing check)) (
              rounds-IsBlocked bounded n a (slept a w) (
                Waits-again n wake_at s a w h identity is_next within backing count check
                  (omega arith)))
        | inr (spent, blocked, count) ↦ stops (suc n) s a w run is_next spent blocked count
      ]

-- A valid waiting campaign whose check is due and whose condition never comes ends: with valid backoff
-- bounds, no failing lock or disk, no other writer, nothing deferred, room in the log for the retries that
-- are left and one event more, the longest backoff passing between a retry and the next tick, and more
-- ticks allowed than retries are left, `run_forever` returns the campaign as BLOCKED_NON_RETRYABLE with
-- its budget used up, and the file holds that campaign.
pub run_forever-IsBlocked :
    (u : Setup) (max_ticks next : ℕ) (s : CampaignState) (w : World)
    → bounds_are_valid u.runner ≡ true
    → ((c : CampaignState) → u.probe c ≡ returned false)
    → validate_identity u.calendar (key u) s ≡ ok tt
    → is_waiting s.status ≡ true
    → u.calendar.parse (or_empty s.next_check_at) ≡ some next
    → next ≤ w.clock 0
    → IsPatient u.runner w
    → s.event_sequence + (s.retry_budget - s.retry_count) < 500
    → s.retry_budget - s.retry_count < max_ticks
    → Quiet w
    → w.file ≡ document s
    → IsBlocked (run_forever u true max_ticks w)
unfolding run_forever
run_forever-IsBlocked u max_ticks next s w bounded never identity waiting scheduled due patient room
      enough quiet file =
    rounds-IsBlocked (unguarded u) never bounded (max_ticks - 1) s w (record {
      identity = identity;
      waiting = waiting;
      next = next;
      scheduled = scheduled;
      due = due;
      patient = patient;
      room = room;
      enough = omega arith;
      quiet = quiet;
      file = file;
    })
