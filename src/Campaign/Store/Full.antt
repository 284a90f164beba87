-- ===== src/Campaign/Store/Full.antt =====
-- A full log: the claim of a campaign with 500 events writes a file that is never read again.
use agf_orchestrator.Base.{
  ℕ, ◌≡◌, ◌≢◌, refl, ap, length-append, Option, none, some, arith, inl, inr, String, true, false,
}
use agf_orchestrator.Base.Raise.{Error, lock_error, ok, raise as raised, Result-cases}
use agf_orchestrator.Campaign.Models.{CampaignState, Calendar, validate, is_terminal}
use agf_orchestrator.Campaign.Models.Valid.{validate-Parts}
use agf_orchestrator.Campaign.World.{
  World, document, acquired, now, enter, read_file, load_unlocked, save_unlocked, continue,
}
use agf_orchestrator.Campaign.Store.{
  load, claim, claim_found, claimed, is_leased, leased_by, is_worker, found,
}
use agf_orchestrator.Campaign.Models.Valid.{validate-counted}
use agf_orchestrator.Campaign.Store.Lease.{Finds, inside, claim-inside}

claimed-too_long :
    (calendar : Calendar) (worker_id : String) (t at : ℕ) (s : CampaignState)
    → validate calendar s ≡ ok tt
    → s.event_sequence ≡ 500
    → validate calendar (claimed calendar worker_id t at s) ≢ ok tt
claimed-too_long calendar worker_id t at s valid full h =
    let counters = (validate-Parts calendar (claimed calendar worker_id t at s) h).counters in
    let counted = validate-counted calendar s valid in
    let longer = length-append {0} s.events in ground (arith, counters, counted, longer _, full)

read-fails :
    (calendar : Calendar) (c : CampaignState)
    → validate calendar c ≢ ok tt
    → (e : Error) × (read_file calendar (document c) ≡ raised e)
read-fails calendar c bad = elim (Result-cases (validate calendar c)) [
  | inl (_, valid) ↦ absurd (bad valid)
  | inr (e, failed) ↦ (e, rw failed)
]

acquired-fails :
    (calendar : Calendar) (o : Option String) (e : Error) (v : World)
    → read_file calendar v.file ≡ raised e
    → (e' : Error) × ((continue (acquired o v) (λ _ x. continue (load_unlocked calendar x) found)).0
        ≡ raised e')
unfolding load_unlocked
acquired-fails calendar none e v failed = (e, rw failed)
acquired-fails calendar (some m) e v failed = (lock_error m, refl)

-- A file whose campaign does not validate is never loaded again.
load-fails :
    (calendar : Calendar) (c : CampaignState) (v : World)
    → validate calendar c ≢ ok tt
    → v.turns 0 v.file ≡ document c
    → (e : Error) × ((load calendar v).0 ≡ raised e)
unfolding load enter
load-fails calendar c v bad file =
    let (e, failed) = read-fails calendar c bad in
    acquired-fails calendar (v.locks 0) e (inside (v.turns 0 v.file) v) (rw file failed)

-- A claim of a valid live campaign without lease and with 500 events, with a free lock and a disk that
-- takes the write, succeeds and writes a file that is never read again: every `load` of it raises.
pub claim_full :
    (calendar : Calendar) (worker_id expires : String) (t : ℕ) (s : CampaignState) (w : World)
    → is_worker worker_id ≡ true
    → calendar.parse expires ≡ some t
    → Finds (document s) w
    → w.disks 0 ≡ none
    → validate calendar s ≡ ok tt
    → is_terminal s.status ≡ false
    → s.lease_owner ≡ none
    → s.event_sequence ≡ 500
    → (c : CampaignState) × ((claim calendar worker_id expires w).0 ≡ ok (some c))
      × ((claim calendar worker_id expires w).1.file ≡ document c)
      × ((v : World)
          → v.turns 0 v.file ≡ document c
          → (e : Error) × ((load calendar v).0 ≡ raised e))
unfolding claim_found save_unlocked now
claim_full calendar worker_id expires t s w worker parsed finds disk valid live unleased full =
    let c = claimed calendar worker_id t (w.clock 0) s in
    let i = inside (document s) w in
    let free : is_leased calendar s i ≡ (ok false, i) =
      ap (λ o. leased_by calendar s o i) unleased in
    let entered = claim-inside calendar worker_id expires t s w worker parsed finds valid in
    (
      c,
      rw (entered, live, free, disk),
      rw (entered, live, free, disk),
      λ v. load-fails calendar c v (claimed-too_long calendar worker_id t (w.clock 0) s valid full),
    )
