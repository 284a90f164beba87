-- ===== src/Campaign/Store/Lease.antt =====
-- The lease of a campaign: it is held by one worker, and its event may be one too many.
use agf_orchestrator.Base.{
  ℕ, suc, ◌<◌, ◌≡◌, refl, sym, ap, ◌∙◌, subst, Option, none, some, arith, String, true, false, not,
  ltb,
}
use agf_orchestrator.Base.Raise.{campaign_runner_error, Result, ok, raise as raised}
use agf_orchestrator.Campaign.Models.{
  CampaignState, Calendar, validate, is_terminal, parse_timestamp, timed,
}
use agf_orchestrator.Campaign.World.{
  World, File, document, now, enter, load_unlocked, save_unlocked, continue, pure, lift, ◌>>=◌,
}
use agf_orchestrator.Campaign.World.After.{After, After-bind, After-lift, After-if, After-raise_if}
use agf_orchestrator.Campaign.Store.{
  claim, claim_found, claim_section, claimed, is_leased, leased_by, is_worker, or_empty,
}
use agf_orchestrator.Campaign.Store.Log.{section-After}

-- A world in which the lock is free and the section finds this file.
abbrev pub Finds : File → World → Type 0
Finds f w = (w.locks 0 ≡ none) × (w.turns 0 w.file ≡ f)

-- The world of the section.
abbrev pub inside : File → World → World
inside f w = record w { file = f; turns = λ n. w.turns (suc n); locks = λ n. w.locks (suc n) }

pub enter-inside : (f : File) (w : World) → Finds f w → enter w ≡ (ok tt, inside f w)
unfolding enter
enter-inside f w (free, file) = rw (free, file)

pub claim-inside :
    (calendar : Calendar) (worker_id expires : String) (t : ℕ) (s : CampaignState) (w : World)
    → is_worker worker_id ≡ true
    → calendar.parse expires ≡ some t
    → Finds (document s) w
    → validate calendar s ≡ ok tt
    → claim calendar worker_id expires w
      ≡ claim_found calendar worker_id t s (inside (document s) w)
unfolding claim claim_section load_unlocked
claim-inside calendar worker_id expires t s w worker parsed finds valid =
    rw (worker, parsed, enter-inside (document s) w finds, valid)

timed-eq-ok : (o : Option ℕ) (t : ℕ) → timed o ≡ ok t → o ≡ some t
timed-eq-ok none t h = absurd (cc)
timed-eq-ok (some n) t h = cc

abbrev Any : World → Type 0
Any w = Unit {0}

Any-After : {A : Type 0} (r : Result A × World) → After (λ _. Any) Any r
Any-After (ok a, w) = tt
Any-After (raised e, w) = tt

module _ (calendar : Calendar) (worker_id expires : String) where
  -- What is known of the state that `claim` returns.
  abbrev IsLease : CampaignState → Type 0
  IsLease c =
      (t : ℕ) × (at : ℕ) × (s : CampaignState) × (calendar.parse expires ≡ some t)
      × (is_terminal s.status ≡ false)
      × (c ≡ claimed calendar worker_id t at s)

  abbrev Leases : Option CampaignState → World → Type 0
  Leases o w = (c : CampaignState) → o ≡ some c → IsLease c

  written-Leases :
      (t at : ℕ) (s : CampaignState) (w : World)
      → calendar.parse expires ≡ some t
      → is_terminal s.status ≡ false
      → After Leases Any (
          continue
            (save_unlocked (claimed calendar worker_id t at s) w)
            (λ _. pure (some (claimed calendar worker_id t at s))))
  written-Leases t at s w parsed live =
      After-bind Any (λ _. Any) Leases (save_unlocked (claimed calendar worker_id t at s) w) _
        (Any-After (save_unlocked (claimed calendar worker_id t at s) w))
        λ _ v _ c e. (t, at, s, parsed, live, cc)

  found-Leases :
      (t : ℕ) (s : CampaignState) (w : World)
      → calendar.parse expires ≡ some t
      → After Leases Any (claim_found calendar worker_id t s w)
  unfolding claim_found now
  found-Leases t s w parsed =
      After-if Any Leases (is_terminal s.status) (pure none) _ w (λ _ c e. absurd (cc))
        λ live.
          After-bind Any (λ _. Any) Leases (is_leased calendar s w) _
            (Any-After (is_leased calendar s w))
            λ busy v _.
              After-if Any Leases busy (pure none) _ v (λ _ c e. absurd (cc))
                λ _.
                  written-Leases t (v.clock 0) s (record v { clock = λ n. v.clock (suc n) }) parsed
                    live

  claim-Leases : (w : World) → After Leases Any (claim calendar worker_id expires w)
  unfolding claim claim_section
  claim-Leases w =
      After-raise_if Any Leases (not (is_worker worker_id))
        (campaign_runner_error "campaign worker identity is invalid") w
        (λ _. lift (parse_timestamp calendar expires) >>= claim_section calendar worker_id) tt
        λ _.
          After-lift Any Leases (parse_timestamp calendar expires) w
            (claim_section calendar worker_id) tt
            λ t parsed.
              After-bind Any (λ _. Any) Leases (enter w) _ (Any-After (enter w))
                λ _ v _.
                  section-After calendar Any Leases (claim_found calendar worker_id t) v tt
                    λ s file valid.
                      found-Leases t s v (timed-eq-ok (calendar.parse expires) t parsed)

  claim-IsLease :
      (c : CampaignState) (w w' : World)
      → claim calendar worker_id expires w ≡ (ok (some c), w')
      → IsLease c
  claim-IsLease c w w' h = (subst (After Leases Any) h (claim-Leases w)) c refl

-- A lease that runs: other claims find the campaign busy.
leased_by-held :
    (calendar : Calendar) (c : CampaignState) (owner : String) (t : ℕ) (w : World)
    → calendar.parse (or_empty c.lease_expires_at) ≡ some t
    → w.clock 0 < t
    → leased_by calendar c (some owner) w ≡ (ok true, record w { clock = λ n. w.clock (suc n) })
unfolding now
leased_by-held calendar c owner t w parsed early =
    let before : ltb (w.clock 0) t ≡ true = ground arith in rw (parsed, before)

-- While the lease of a claim that returned a campaign runs, and the file holds that campaign and it
-- validates, every other claim that finds the lock free returns none and writes nothing.
pub claim_exclusive :
    (calendar : Calendar) (worker_id expires other other_expires : String) (t t' : ℕ)
    (c : CampaignState) (w w' v : World)
    → claim calendar worker_id expires w ≡ (ok (some c), w')
    → calendar.parse expires ≡ some t
    → validate calendar c ≡ ok tt
    → Finds (document c) v
    → v.clock 0 < t
    → is_worker other ≡ true
    → calendar.parse other_expires ≡ some t'
    → ((claim calendar other other_expires v).0 ≡ ok none)
      × ((claim calendar other other_expires v).1.file ≡ document c)
unfolding claim_found
claim_exclusive calendar worker_id expires other other_expires t t' c w w' v claims parsed valid
      finds early worker parsed' =
    let (t₀, at, s, e, live, lease) = claim-IsLease calendar worker_id expires c w w' claims in
    let i = inside (document c) v in
    let owner = ap (λ (x : CampaignState). x.lease_owner) lease in
    let expiry = ap (λ (x : CampaignState). calendar.parse (or_empty x.lease_expires_at)) lease in
    let until : calendar.parse (or_empty c.lease_expires_at) ≡ some t =
      expiry ∙ calendar.parse-print t₀ ∙ sym e ∙ parsed in
    let running = ap (λ (x : CampaignState). is_terminal x.status) lease ∙ live in
    let busy : is_leased calendar c i ≡ (ok true, record i { clock = λ n. i.clock (suc n) }) =
      ap (λ o. leased_by calendar c o i) owner
      ∙ leased_by-held calendar c worker_id t i until early in
    let entered = claim-inside calendar other other_expires t' c v worker parsed' finds valid in
    rw (entered, running, busy) (refl, refl)
