-- ===== src/Campaign/Runner/Quiet.antt =====
-- A tick in a quiet world: the condition of a campaign is due and not satisfied, and the retry is written.
use agf_orchestrator.Base.{
  ℕ, suc, ◌+◌, ◌<◌, ◌≤◌, ◌≡◌, refl, ◌∙◌, none, some, arith, String, true, false, ltb, ◌==◌,
}
use agf_orchestrator.Base.Raise.{ok}
use agf_orchestrator.Base.Text.{has_text, is_space, len_le}
use agf_orchestrator.Campaign.Models.{
  CampaignState, Calendar, StoreKey, validate, validate_identity, is_terminal, is_waiting, is_text,
}
use agf_orchestrator.Campaign.World.{
  World, File, document, missing, acquire, now, save_unlocked, load_unlocked,
}
use agf_orchestrator.Campaign.Store.{load, save, or_empty}
use agf_orchestrator.Campaign.Store.Lease.{Finds, inside, enter-inside}
use agf_orchestrator.Campaign.Steps.{Runner, retried}
use agf_orchestrator.Campaign.Steps.Valid.{IsRetry, retried_lem}
use agf_orchestrator.Campaign.Deferred.{Digest, deferred_steps}
use agf_orchestrator.Campaign.Deferred.Payload.{
  validate_identity_parts, validate_identity_of, retried_cases, retried-same_ids,
}
use agf_orchestrator.Campaign.Recovery.{carry_over, recover_deferred_retry}
use agf_orchestrator.Campaign.Runner.{
  Setup, returned, key, store_load, store_save, schedule_retry_locked, poll, tick_locked, tick,
}

-- Nobody else writes, no lock is held, no write fails, and nothing is deferred.
pub record Quiet (w : World) : Type 0 where
  pub free : (n : ℕ) → w.locks n ≡ none
  pub alone : (n : ℕ) (f : File) → w.turns n f ≡ f
  pub working : (n : ℕ) → w.disks n ≡ none
  pub undeferred : w.deferred ≡ missing
  pub unlinked : w.legacy ≡ missing

-- The world after a tick that writes the state.
abbrev pub ticked_on : CampaignState → World → World
ticked_on a w = record w {
  file = document a;
  clock = λ n. w.clock (suc (suc n));
  locks = λ n. w.locks (suc (suc (suc n)));
  disks = λ n. w.disks (suc n);
  turns = λ n. w.turns (suc (suc n));
}

acquire-free :
    (w : World) → w.locks 0 ≡ none → acquire w ≡ (ok tt, record w { locks = λ n. w.locks (suc n) })
unfolding acquire
acquire-free w free = rw free

recover-nothing :
    (calendar : Calendar) (k : StoreKey) (digest : Digest) (w : World)
    → w.deferred ≡ missing
    → w.legacy ≡ missing
    → recover_deferred_retry calendar k digest w ≡ (ok tt, w)
unfolding recover_deferred_retry carry_over deferred_steps
recover-nothing calendar k digest w none_new none_old = rw (none_new, none_old)

load-free :
    (u : Setup) (s : CampaignState) (w : World)
    → validate u.calendar s ≡ ok tt
    → Finds (document s) w
    → store_load u w ≡ (ok s, inside (document s) w)
unfolding load load_unlocked
load-free u s w valid finds = rw (enter-inside (document s) w finds, valid)

save-free :
    (u : Setup) (s a : CampaignState) (w : World)
    → validate u.calendar s ≡ ok tt
    → validate_identity u.calendar (key u) a ≡ ok tt
    → a.event_sequence ≡ s.event_sequence + 1
    → Finds (document s) w
    → w.disks 0 ≡ none
    → store_save u a w
      ≡ (ok a, record (inside (document s) w) { file = document a; disks = λ n. w.disks (suc n) })
unfolding save load_unlocked save_unlocked
save-free u s a w valid identity next finds disk =
    let later : ltb a.event_sequence s.event_sequence ≡ false = ground arith in
    let other : (a.event_sequence == s.event_sequence) ≡ false = ground arith in
    rw (identity, enter-inside (document s) w finds, valid, later, other, disk)

reason_text : is_text "external condition not satisfied" ≡ true
unfolding has_text is_space len_le
reason_text = refl

-- A retry is the campaign's next event, within the same budget.
abbrev pub IsNext : CampaignState → CampaignState → Type 0
IsNext s a = (a.event_sequence ≡ s.event_sequence + 1) × (a.retry_budget ≡ s.retry_budget)

retried-IsNext :
    (calendar : Calendar) (r : Runner) (at : ℕ) (s a : CampaignState) (reason : String)
    → retried calendar r at s reason ≡ ok a
    → IsNext s a
retried-IsNext calendar r at s a reason steps =
    retried_cases calendar r at s a reason steps (IsNext s) (λ _. (refl, refl)) (λ _. (refl, refl))

-- What a tick of a campaign whose condition is due and not satisfied leads to.
abbrev pub IsTicked : Setup → CampaignState → World → Type 0
IsTicked u s w =
    (a : CampaignState) × (tick u w ≡ (ok a, ticked_on a w))
    × (validate_identity u.calendar (key u) a ≡ ok tt)
    × IsNext s a
    × IsRetry u.calendar u.runner (w.clock 1) s a

waiting-live : (s : CampaignState) → is_waiting s.status ≡ true → is_terminal s.status ≡ false
waiting-live s waiting = ground (arith, waiting)

module _ (u : Setup) (never : (c : CampaignState) → u.probe c ≡ returned false) where
  pub tick_retries :
      (s : CampaignState) (next : ℕ) (w : World)
      → validate_identity u.calendar (key u) s ≡ ok tt
      → is_waiting s.status ≡ true
      → u.calendar.parse (or_empty s.next_check_at) ≡ some next
      → next ≤ w.clock 0
      → s.event_sequence < 500
      → Quiet w
      → w.file ≡ document s
      → IsTicked u s w
  unfolding tick tick_locked poll schedule_retry_locked now
  tick_retries s next w identity waiting scheduled due room q file =
      let (valid, p, c) = validate_identity_parts u.calendar (key u) s identity in
      let (a, steps, valid', is_retry) =
        retried_lem u.calendar u.runner (w.clock 1) s "external condition not satisfied" valid
          reason_text room in
      let (p', c') =
        retried-same_ids u.calendar u.runner (w.clock 1) s a "external condition not satisfied"
          steps in
      let identity' = validate_identity_of u.calendar (key u) a valid' (p' ∙ p) (c' ∙ c) in
      let is_next =
        retried-IsNext u.calendar u.runner (w.clock 1) s a "external condition not satisfied"
          steps in
      let live = waiting-live s waiting in
      let entered = record w { locks = λ n. w.locks (suc n) } in
      let loaded = inside (document s) entered in
      let looked = record loaded { clock = λ n. w.clock (suc (suc n)) } in
      let early : ltb (w.clock 0) next ≡ false = ground arith in
      (
        a,
        rw (
          acquire-free w (q.free 0),
          recover-nothing u.calendar (key u) u.digest entered q.undeferred q.unlinked,
          load-free u s entered valid (q.free 1, q.alone 0 w.file ∙ file),
          live,
          waiting,
          scheduled,
          early,
          never s,
          steps,
          save-free u s a looked valid identity' is_next.0 (q.free 2, q.alone 1 (document s))
              (q.working 0),
        ),
        identity',
        is_next,
        is_retry,
      )
