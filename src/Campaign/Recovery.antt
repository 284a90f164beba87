-- ===== src/Campaign/Recovery.antt =====
-- The deferral of a retry and its recovery (src/agf_orchestrator/campaign_runner.py), under the lock of the
-- campaign's operations.
pub mod Log
use agf_orchestrator.Base.{
  ℕ, suc, Bool, true, false, not, ◌&&◌, Option, none, some, String, if◌then◌else◌,
}
use agf_orchestrator.Base.Raise.{
  Error, Result, ok, raise as raised, campaign_runner_error, os_error,
}
use agf_orchestrator.Campaign.Models.{Calendar, CampaignState, StoreKey}
use agf_orchestrator.Campaign.World.{
  World, Exec, Deferred, Sidecar, missing, payload, pure, raise, lift, continue, ◌>>=◌, ◌>>◌,
  raise_if, enter, load_unlocked, save_unlocked, state_eq,
}
use agf_orchestrator.Campaign.Deferred.{
  Digest, conflict, same_steps, is_present, legacy_candidate, read_deferred, deferred_steps,
}

-- The file that `_defer_retry` links to.
abbrev pub linked : Option String → Deferred → Exec (Unit {0})
linked none d w = (ok tt, record w { deferred = payload d })
linked (some m) d w = (raised (os_error m), w)

abbrev pub defer_new : Digest → CampaignState → CampaignState → Exec (Unit {0})
defer_new digest before after w =
    linked (w.disks 0)
      (record {
        schema_version = "1.0";
        before = before;
        after = after;
        sha256 = digest "1.0" before after;
      })
      (record w { disks = λ n. w.disks (suc n) })

-- `_defer_retry`
unfoldable pub defer_retry :
    Calendar → StoreKey → Digest → CampaignState → CampaignState → Exec (Unit {0})
unfolding read_deferred
defer_retry calendar key digest before after w =
    (if is_present w.deferred
        then (lift (read_deferred calendar key digest false w.deferred) >>= λ steps.
            raise_if (not (same_steps steps (before, after))) conflict)
        else defer_new digest before after)
      w

-- `unlink` of the files that were read
abbrev pub unlinked : Calendar → StoreKey → Exec (Unit {0})
unlinked calendar key w = (
  ok tt,
  record w {
    deferred = missing;
    legacy = if legacy_candidate calendar key w.legacy then missing else w.legacy;
  },
)

-- `current == s`
abbrev pub is_state : Option CampaignState → CampaignState → Bool
is_state none s = false
is_state (some current) s = state_eq current s

-- The step is carried over once: a campaign that has it already keeps it.
abbrev pub carried : CampaignState → CampaignState → Option CampaignState → Exec (Unit {0})
carried before after current =
    if is_state current before
    then save_unlocked after
    else if not (is_state current after)
    then raise (campaign_runner_error "deferred retry conflicts with current campaign state")
    else pure tt

unfoldable pub carry_over :
    Calendar → StoreKey → Option (CampaignState × CampaignState) → Exec (Unit {0})
carry_over calendar key none = pure tt
carry_over calendar key (some (before, after)) = do
  enter
  current ← load_unlocked calendar
  carried before after current
  unlinked calendar key

-- `_recover_deferred_retry`
unfoldable pub recover_deferred_retry : Calendar → StoreKey → Digest → Exec (Unit {0})
unfolding deferred_steps carry_over
recover_deferred_retry calendar key digest w =
    continue (deferred_steps calendar key digest w.deferred w.legacy, w) (carry_over calendar key)
