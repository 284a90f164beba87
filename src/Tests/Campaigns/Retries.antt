-- ===== src/Tests/Campaigns/Retries.antt =====
-- Retries, deferrals and the bounded loop on concrete inputs.
use agf_orchestrator.Base.{◌≤◌, ◌≡◌, refl, arith, none, some, true, false, if◌then◌else◌, ◌==◌, ◌⊎◌}
use agf_orchestrator.Base.Raise.{ok}
use agf_orchestrator.Base.Text.{has_text, is_space, len_le, starts_with, is_hex_text, is_nonempty}
use agf_orchestrator.Campaign.Models.{
  CampaignState, validate, validate_identity, is_text, waiting_external,
}
use agf_orchestrator.Campaign.World.{World, document, missing}
use agf_orchestrator.Campaign.World.Grown.{Grown, Grown-refl}
use agf_orchestrator.Campaign.Store.Lease.{Finds}
use agf_orchestrator.Campaign.Steps.{backoff_delay, retried}
use agf_orchestrator.Campaign.Steps.Valid.{IsRetry, retried_lem, backoff_delay_bounds}
use agf_orchestrator.Campaign.Recovery.{recover_deferred_retry}
use agf_orchestrator.Campaign.Deferred.{legacy_candidate}
use agf_orchestrator.Campaign.Runner.{key, schedule_retry_locked, run_forever, perform, runs}
use agf_orchestrator.Campaign.Runner.Operations.{perform-Grown}
use agf_orchestrator.Campaign.Runner.Carry.{recover_deferred_retry-schedule_retry_locked}
use agf_orchestrator.Campaign.Runner.Quiet.{Quiet}
use agf_orchestrator.Campaign.Runner.Blocked.{IsPatient, IsBlocked, run_forever-IsBlocked}
use agf_orchestrator.Tests.Campaigns.{tallies, campaign_of, world, runner, setup}

-- A campaign that waits.
abbrev waiting : CampaignState
waiting = record (campaign_of 0) {
  status = waiting_external;
  reason = some "a review";
  resource = some "a pull request";
  expected_condition = some "it is merged";
  waiting_since = some "Z";
  next_check_at = some "Z";
}

waiting_valid : validate_identity tallies (key setup) waiting ≡ ok tt
unfolding validate_identity validate has_text is_space len_le starts_with is_hex_text is_nonempty
waiting_valid = refl

running_valid : validate tallies (campaign_of 0) ≡ ok tt
unfolding validate has_text is_space len_le starts_with is_hex_text is_nonempty
running_valid = refl

texted : is_text "no answer" ≡ true
unfolding has_text is_space len_le
texted = refl

retried_lem_example :
    (u : CampaignState) × (retried tallies runner 5 (campaign_of 0) "no answer" ≡ ok u)
    × (validate tallies u ≡ ok tt)
    × IsRetry tallies runner 5 (campaign_of 0) u
retried_lem_example =
    retried_lem tallies runner 5 (campaign_of 0) "no answer" running_valid texted (omega arith)

backoff_delay_bounds_example : (1 ≤ backoff_delay runner 7) × (backoff_delay runner 7 ≤ 2)
backoff_delay_bounds_example = backoff_delay_bounds runner 7 refl

-- The first lock is held, and the next ones are free.
abbrev locked : World
locked = record (world 0 waiting) {
  locks = λ n. if n == 0 then some "lock is held: project-1" else none;
}

recover_deferred_retry-schedule_retry_locked_example :
    (a : CampaignState) × ((schedule_retry_locked setup waiting "no answer" locked).0 ≡ ok a)
    × IsRetry tallies runner 0 waiting a
    × ((schedule_retry_locked setup waiting "no answer" locked).1.file ≡ document waiting)
    × ((c : CampaignState) (v : World)
        → v.deferred ≡ (schedule_retry_locked setup waiting "no answer" locked).1.deferred
        → legacy_candidate tallies (key setup) v.legacy ≡ false
        → (c ≡ waiting) ⊎ (c ≡ a)
        → Finds (document c) v
        → v.disks 0 ≡ none
        → let after = recover_deferred_retry tallies (key setup) setup.digest v in
          (after.0 ≡ ok tt) × (after.1.file ≡ document a) × (after.1.deferred ≡ missing))
recover_deferred_retry-schedule_retry_locked_example =
    recover_deferred_retry-schedule_retry_locked setup waiting "no answer" "lock is held: project-1"
      locked waiting_valid refl texted (omega arith) refl refl refl refl

world-Quiet : Quiet (world 0 waiting)
world-Quiet = record {
  free = λ n. refl;
  alone = λ n f. refl;
  working = λ n. refl;
  undeferred = refl;
  unlinked = refl;
}

patient : IsPatient runner (world 0 waiting)
patient k = omega arith

run_forever-IsBlocked_example : IsBlocked (run_forever setup true 2 (world 0 waiting))
unfolding is_nonempty
run_forever-IsBlocked_example =
    run_forever-IsBlocked setup 2 0 waiting (world 0 waiting) refl (λ c. refl) waiting_valid refl
      refl (omega arith) patient (omega arith) (omega arith) world-Quiet refl

perform-Grown_example :
    Grown (document waiting) (perform setup (runs true 2) (world 0 waiting)).1.file
perform-Grown_example = perform-Grown setup (runs true 2) (world 0 waiting) (λ n f. Grown-refl f)
