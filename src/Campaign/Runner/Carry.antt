-- ===== src/Campaign/Runner/Carry.antt =====
-- A retry whose write met a held lock: it is deferred, and the next recovery carries it over.
use agf_orchestrator.Base.{
  ℕ, suc, ◌<◌, ◌≡◌, refl, ap, ◌∙◌, subst, none, some, Bool-cases, inl, inr, ◌⊎◌, String, true,
  false,
}
use agf_orchestrator.Base.Raise.{Result, ok, raise as raised, lock_error}
use agf_orchestrator.Campaign.Models.{
  CampaignState, Calendar, StoreKey, validate, validate_identity, is_terminal, is_text,
}
use agf_orchestrator.Campaign.World.{
  World, document, missing, payload, state_eq, state_eq_iff, enter, continue, now, save_unlocked,
  load_unlocked,
}
use agf_orchestrator.Campaign.Store.{save}
use agf_orchestrator.Campaign.Store.Lease.{Finds, inside, enter-inside}
use agf_orchestrator.Campaign.Steps.{retried, bounds_are_valid}
use agf_orchestrator.Campaign.Steps.Valid.{IsRetry, retried_lem}
use agf_orchestrator.Campaign.Deferred.{Digest, legacy_candidate, deferred_steps, read_deferred}
use agf_orchestrator.Campaign.Deferred.Payload.{
  payload_of, validate_identity_parts, validate_identity_of, read_deferred-payload,
  retried-check_step, retried-same_ids,
}
use agf_orchestrator.Campaign.Recovery.{
  defer_retry, carried, carry_over, unlinked, recover_deferred_retry,
}
use agf_orchestrator.Campaign.Runner.{Setup, key, store_save, schedule_retry_locked}

enter-locked :
    (m : String) (w : World)
    → w.locks 0 ≡ some m
    → enter w ≡ (raised (lock_error m), inside (w.turns 0 w.file) w)
unfolding enter
enter-locked m w locked = rw locked

save-locked :
    (u : Setup) (s : CampaignState) (m : String) (w : World)
    → validate_identity u.calendar (key u) s ≡ ok tt
    → w.locks 0 ≡ some m
    → store_save u s w ≡ (raised (lock_error m), inside (w.turns 0 w.file) w)
unfolding save
save-locked u s m w valid locked = rw (valid, enter-locked m w locked)

-- The world after a deferral.
abbrev pub put_off : Digest → CampaignState → CampaignState → World → World
put_off digest before after w = record w {
  deferred = payload (payload_of digest before after);
  disks = λ n. w.disks (suc n);
}

defer-free :
    (calendar : Calendar) (k : StoreKey) (digest : Digest) (before after : CampaignState)
    (w : World)
    → w.deferred ≡ missing
    → w.disks 0 ≡ none
    → defer_retry calendar k digest before after w ≡ (ok tt, put_off digest before after w)
unfolding defer_retry
defer-free calendar k digest before after w nothing disk = rw (nothing, disk)

module _ (u : Setup) (s : CampaignState) (reason : String)
    (identity : validate_identity u.calendar (key u) s ≡ ok tt)
    (live : is_terminal s.status ≡ false) (texted : is_text reason ≡ true)
    (room : s.event_sequence < 500) (bounds : bounds_are_valid u.runner ≡ true) where
  -- The step is one that the store and the deferral accept.
  step_lem :
      (at : ℕ)
      → (a : CampaignState) × (retried u.calendar u.runner at s reason ≡ ok a)
        × (validate_identity u.calendar (key u) a ≡ ok tt)
        × IsRetry u.calendar u.runner at s a
        × (read_deferred u.calendar (key u) u.digest false (payload (payload_of u.digest s a))
            ≡ ok (s, a))
  step_lem at =
      let (valid, p, c) = validate_identity_parts u.calendar (key u) s identity in
      let (a, steps, valid', is_retry) =
        retried_lem u.calendar u.runner at s reason valid texted room in
      let (p', c') = retried-same_ids u.calendar u.runner at s a reason steps in
      let identity' = validate_identity_of u.calendar (key u) a valid' (p' ∙ p) (c' ∙ c) in
      (
        a,
        steps,
        identity',
        is_retry,
        read_deferred-payload u.calendar (key u) u.digest s a identity identity'
            (retried-check_step u.calendar u.runner at s a reason steps live bounds),
      )

  defers :
      (a : CampaignState) (m : String) (w : World)
      → retried u.calendar u.runner (w.clock 0) s reason ≡ ok a
      → validate_identity u.calendar (key u) a ≡ ok tt
      → w.locks 0 ≡ some m
      → w.deferred ≡ missing
      → w.disks 0 ≡ none
      → schedule_retry_locked u s reason w ≡ (
        ok a,
        put_off u.digest s a
            (inside (w.turns 0 w.file) (record w { clock = λ n. w.clock (suc n) })),
      )
  unfolding schedule_retry_locked now
  defers a m w steps identity' locked nothing disk =
      let ticked = record w { clock = λ n. w.clock (suc n) } in
      rw (
        steps,
        save-locked u a m ticked identity' locked,
        defer-free u.calendar (key u) u.digest s a (inside (w.turns 0 w.file) ticked) nothing disk,
      )

unlinked-keeps :
    (calendar : Calendar) (k : StoreKey) (a : CampaignState) (r : Result (Unit {0}) × World)
    → (r.0 ≡ ok tt) × (r.1.file ≡ document a)
    → let after = continue r (λ _. unlinked calendar k) in
      (after.0 ≡ ok tt) × (after.1.file ≡ document a) × (after.1.deferred ≡ missing)
unlinked-keeps calendar k a (ok _, w) (_, file) = (refl, file, refl)
unlinked-keeps calendar k a (raised e, w) (failed, file) = absurd (cc)

state_eq_refl : (s : CampaignState) → state_eq s s ≡ true
state_eq_refl s = (state_eq_iff s s).1 refl

module _ (u : Setup) (s a : CampaignState) (valid : validate u.calendar s ≡ ok tt)
    (valid' : validate u.calendar a ≡ ok tt)
    (read : read_deferred u.calendar (key u) u.digest false (payload (payload_of u.digest s a))
      ≡ ok (s, a)) where
  carried-before :
      (v : World)
      → v.disks 0 ≡ none
      → carried s a (some s) v
        ≡ (ok tt, record v { file = document a; disks = λ n. v.disks (suc n) })
  unfolding save_unlocked
  carried-before v disk = rw (state_eq_refl s, disk)

  carried-after :
      (v : World)
      → v.disks 0 ≡ none
      → v.file ≡ document a
      → ((carried s a (some a) v).0 ≡ ok tt) × ((carried s a (some a) v).1.file ≡ document a)
  unfolding save_unlocked
  carried-after v disk file = elim (Bool-cases (state_eq a s)) [
    | inl same ↦ rw (same, disk) (refl, refl)
    | inr differs ↦ rw (differs, state_eq_refl a) (refl, file)
  ]

  steps_read :
      (v : World)
      → v.deferred ≡ payload (payload_of u.digest s a)
      → legacy_candidate u.calendar (key u) v.legacy ≡ false
      → deferred_steps u.calendar (key u) u.digest v.deferred v.legacy ≡ ok (some (s, a))
  unfolding deferred_steps
  steps_read v deferred alone = rw (deferred, alone, read)

  recovers :
      (c : CampaignState) (v : World)
      → v.deferred ≡ payload (payload_of u.digest s a)
      → legacy_candidate u.calendar (key u) v.legacy ≡ false
      → (c ≡ s) ⊎ (c ≡ a)
      → Finds (document c) v
      → v.disks 0 ≡ none
      → let after = recover_deferred_retry u.calendar (key u) u.digest v in
        (after.0 ≡ ok tt) × (after.1.file ≡ document a) × (after.1.deferred ≡ missing)
  unfolding recover_deferred_retry carry_over load_unlocked
  recovers c v deferred alone (inl same) finds disk =
      let found = subst (λ x. Finds (document x) v) same finds in
      rw
        (
          steps_read v deferred alone,
          enter-inside (document s) v found,
          valid,
          carried-before (inside (document s) v) disk,
        )
        (refl, refl, refl)
  recovers c v deferred alone (inr same) finds disk =
      let found = subst (λ x. Finds (document x) v) same finds in
      rw (steps_read v deferred alone, enter-inside (document a) v found, valid')
        (unlinked-keeps u.calendar (key u) a (carried s a (some a) (inside (document a) v))
          (carried-after (inside (document a) v) disk refl))

-- If the project's lock is held when `_schedule_retry` saves the retry of a valid live campaign of the
-- store whose log has room, with valid backoff bounds, nothing deferred yet and a disk that takes the
-- write, it returns the retry, writes nothing to the campaign's file, and any later recovery that finds
-- that deferral, no old one, a free lock, a disk that takes the write and the campaign before or after the
-- retry leaves the campaign after the retry in the file and removes the deferral.
pub recover_deferred_retry-schedule_retry_locked :
    (u : Setup) (s : CampaignState) (reason m : String) (w : World)
    → validate_identity u.calendar (key u) s ≡ ok tt
    → is_terminal s.status ≡ false
    → is_text reason ≡ true
    → s.event_sequence < 500
    → bounds_are_valid u.runner ≡ true
    → w.locks 0 ≡ some m
    → w.deferred ≡ missing
    → w.disks 0 ≡ none
    → (a : CampaignState) × ((schedule_retry_locked u s reason w).0 ≡ ok a)
      × IsRetry u.calendar u.runner (w.clock 0) s a
      × ((schedule_retry_locked u s reason w).1.file ≡ w.turns 0 w.file)
      × ((c : CampaignState) (v : World)
          → v.deferred ≡ (schedule_retry_locked u s reason w).1.deferred
          → legacy_candidate u.calendar (key u) v.legacy ≡ false
          → (c ≡ s) ⊎ (c ≡ a)
          → Finds (document c) v
          → v.disks 0 ≡ none
          → let after = recover_deferred_retry u.calendar (key u) u.digest v in
            (after.0 ≡ ok tt) × (after.1.file ≡ document a) × (after.1.deferred ≡ missing))
recover_deferred_retry-schedule_retry_locked u s reason m w identity live texted room bounds locked
      nothing disk =
    let (a, steps, identity', is_retry, read) =
      step_lem u s reason identity live texted room bounds (w.clock 0) in
    let run =
      defers u s reason identity live texted room bounds a m w steps identity' locked nothing
        disk in
    let valid = (validate_identity_parts u.calendar (key u) s identity).0 in
    let valid' = (validate_identity_parts u.calendar (key u) a identity').0 in
    (
      a,
      ap (λ r. r.0) run,
      is_retry,
      ap (λ r. r.1.file) run,
      λ c v deferred alone same finds free.
          recovers u s a valid valid' read c v (deferred ∙ ap (λ r. r.1.deferred) run) alone same
            finds free,
    )
