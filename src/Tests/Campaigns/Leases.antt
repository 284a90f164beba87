-- ===== src/Tests/Campaigns/Leases.antt =====
-- Leases and full logs on concrete inputs.
use agf_orchestrator.Base.{◌≡◌, refl, arith, none, some, true}
use agf_orchestrator.Base.Raise.{Error, ok, raise}
use agf_orchestrator.Base.Text.{has_text, is_space, len_le, starts_with, is_hex_text, is_nonempty}
use agf_orchestrator.Campaign.Models.{CampaignState, validate}
use agf_orchestrator.Campaign.World.{World, document, enter, now, save_unlocked, load_unlocked}
use agf_orchestrator.Campaign.Store.{load, is_worker, claim, claim_found, claim_section, claimed}
use agf_orchestrator.Campaign.Store.Lease.{claim_exclusive}
use agf_orchestrator.Campaign.Store.Full.{claim_full}
use agf_orchestrator.Tests.Campaigns.{tallies, campaign_of, world}

full_valid : validate tallies (campaign_of 500) ≡ ok tt
unfolding validate has_text is_space len_le starts_with is_hex_text is_nonempty
full_valid = refl

worker : is_worker "runner-1" ≡ true
unfolding starts_with
worker = refl

other_worker : is_worker "runner-2" ≡ true
unfolding starts_with
other_worker = refl

claim_full_example :
    (c : CampaignState) × ((claim tallies "runner-1" "|||Z" (world 0 (campaign_of 500))).0
      ≡ ok (some c))
    × ((claim tallies "runner-1" "|||Z" (world 0 (campaign_of 500))).1.file ≡ document c)
    × ((v : World) → v.turns 0 v.file ≡ document c → (e : Error) × ((load tallies v).0 ≡ raise e))
unfolding is_nonempty
claim_full_example =
    claim_full tallies "runner-1" "|||Z" 3 (campaign_of 500) (world 0 (campaign_of 500)) worker refl
      (refl, refl) refl full_valid refl refl refl

abbrev leased : CampaignState
leased = claimed tallies "runner-1" 3 0 (campaign_of 0)

leased_valid : validate tallies leased ≡ ok tt
unfolding validate has_text is_space len_le starts_with is_hex_text is_nonempty
leased_valid = refl

abbrev after : World
after = (claim tallies "runner-1" "|||Z" (world 0 (campaign_of 0))).1

claims : claim tallies "runner-1" "|||Z" (world 0 (campaign_of 0)) ≡ (ok (some leased), after)
unfolding claim claim_section claim_found enter now save_unlocked load_unlocked validate has_text
    is_space len_le starts_with is_hex_text is_nonempty
claims = refl

claim_exclusive_example :
    ((claim tallies "runner-2" "||||Z" (world 1 leased)).0 ≡ ok none)
    × ((claim tallies "runner-2" "||||Z" (world 1 leased)).1.file ≡ document leased)
unfolding is_nonempty
claim_exclusive_example =
    claim_exclusive tallies "runner-1" "|||Z" "runner-2" "||||Z" 3 4 leased
      (world 0 (campaign_of 0)) after (world 1 leased) claims refl leased_valid (refl, refl)
      (omega arith) other_worker refl
