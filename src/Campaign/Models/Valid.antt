-- ===== src/Campaign/Models/Valid.antt =====
-- What `CampaignState.validate` guarantees.
use agf_orchestrator.Base.{◌≡◌, length, true, All, arith}
use agf_orchestrator.Base.Raise.{ok, require_all, require_all-eq-ok, require_all_of_All, >>=-eq-ok}
use agf_orchestrator.Campaign.Models.{
  CampaignState, Calendar, validate, text_checks, lease_checks, schedule_checks, counter_checks,
  event_checks,
}

pub record Parts (calendar : Calendar) (s : CampaignState) : Type 0 where
  pub texts : All (λ c. c.0 ≡ true) (text_checks calendar s)
  pub lease : All (λ c. c.0 ≡ true) (lease_checks s)
  pub schedule : All (λ c. c.0 ≡ true) (schedule_checks s)
  pub counters : All (λ c. c.0 ≡ true) (counter_checks s)
  pub log : All (λ c. c.0 ≡ true) (event_checks calendar 1 s.events)

pub validate-Parts :
    (calendar : Calendar) (s : CampaignState) → validate calendar s ≡ ok tt → Parts calendar s
unfolding validate
validate-Parts calendar s h =
    let (_, a, h₁) = >>=-eq-ok (require_all (text_checks calendar s)) _ h in
    let (_, b, h₂) = >>=-eq-ok (require_all (lease_checks s)) _ h₁ in
    let (_, c, h₃) = >>=-eq-ok (require_all (schedule_checks s)) _ h₂ in
    let (_, d, e) = >>=-eq-ok (require_all (counter_checks s)) _ h₃ in
    record {
      texts = require_all-eq-ok (text_checks calendar s) a;
      lease = require_all-eq-ok (lease_checks s) b;
      schedule = require_all-eq-ok (schedule_checks s) c;
      counters = require_all-eq-ok (counter_checks s) d;
      log = require_all-eq-ok (event_checks calendar 1 s.events) e;
    }

pub validate_of_Parts :
    (calendar : Calendar) (s : CampaignState) → Parts calendar s → validate calendar s ≡ ok tt
unfolding validate
validate_of_Parts calendar s p =
    rw
      (
        require_all_of_All (text_checks calendar s) p.texts,
        require_all_of_All (lease_checks s) p.lease,
        require_all_of_All (schedule_checks s) p.schedule,
        require_all_of_All (counter_checks s) p.counters,
      )
      (require_all_of_All (event_checks calendar 1 s.events) p.log)

pub validate-counted :
    (calendar : Calendar) (s : CampaignState)
    → validate calendar s ≡ ok tt
    → length s.events ≡ s.event_sequence
validate-counted calendar s h = let c = (validate-Parts calendar s h).counters in ground (arith, c)
