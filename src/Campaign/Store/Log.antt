-- ===== src/Campaign/Store/Log.antt =====
-- The operations of the store only let a campaign's log grow, whatever others write in between.
use agf_orchestrator.Base.{
  ℕ, suc, ◌≡◌, refl, sym, ap, ◌∙◌, subst, [], ◌∷◌, ◌++◌, length, length-append, Option, none, some,
  arith, String, false, not, ◌&&◌, ltb, ◌==◌, ==_iff,
}
use mathlib.Core.List.{append-nil}
use agf_orchestrator.Base.Raise.{campaign_runner_error, Result, ok, raise as raised, >>=-eq-ok}
use agf_orchestrator.Campaign.Models.{
  CampaignState, CampaignEvent, Calendar, StoreKey, validate, validate_identity, is_terminal,
  parse_timestamp,
}
use agf_orchestrator.Campaign.Models.Valid.{validate-counted}
use agf_orchestrator.Campaign.World.{
  World, Exec, File, document, absent, unreadable, malformed, now, enter, read_file, checked,
  load_unlocked, save_unlocked, continue, state_eq, state_eq_iff, pure, lift, raise, ◌>>=◌,
}
use agf_orchestrator.Campaign.World.After.{After, After-bind, After-lift, After-if, After-raise_if}
use agf_orchestrator.Campaign.World.Grown.{
  Extends, Grown-refl, Inv, Held, Counted, enter-Inv, enter-Held, save_unlocked-Inv,
}
use agf_orchestrator.Campaign.Store.{
  load, save, save_over, claim, claim_found, claimed, is_leased, is_worker, claim_section,
  leased_by, found, or_empty,
}

checked-some :
    (r : Result (Unit {0})) (s t : CampaignState)
    → checked r s ≡ ok (some t)
    → (s ≡ t) × (r ≡ ok tt)
checked-some (ok _) s t h = (cc, refl)
checked-some (raised e) s t h = cc

pub read_file-some :
    (calendar : Calendar) (f : File) (s : CampaignState)
    → read_file calendar f ≡ ok (some s)
    → (f ≡ document s) × (validate calendar s ≡ ok tt)
read_file-some calendar absent s h = cc
read_file-some calendar unreadable s h = cc
read_file-some calendar (malformed e) s h = cc
read_file-some calendar (document t) s h =
    let (same, valid) = checked-some (validate calendar t) t s h in
    (ap document same, rw (← same) valid)

-- What `load` and the sections of the other operations find.
abbrev pub Loaded : Calendar → File → CampaignState → World → Type 0
Loaded calendar first s w = Inv first w × (w.file ≡ document s) × (validate calendar s ≡ ok tt)

pub Loaded-Held :
    (calendar : Calendar) (first : File) (s : CampaignState) (w : World)
    → Loaded calendar first s w
    → Held first s w
Loaded-Held calendar first s w (inv, file, valid) =
    (inv, rw file (Grown-refl (document s)), validate-counted calendar s valid)

pub document-injective : (s t : CampaignState) → document s ≡ document t → s ≡ t
document-injective s t h = cc

some-injective : (s t : CampaignState) → ◌≡◌ {A = Option CampaignState} (some s) (some t) → s ≡ t
some-injective s t h = cc

-- One more event, on a state that may have gone on by that event at most.
Extends-next :
    (s t u : CampaignState) (e : CampaignEvent)
    → Extends s t
    → u.events ≡ s.events ++ e ∷ []
    → Counted s
    → Counted t
    → Counted u
    → ltb u.event_sequence t.event_sequence ≡ false
    → (u.event_sequence ≡ t.event_sequence → u ≡ t)
    → Extends t u
Extends-next s t u e ([], grown) one cs ct cu le same =
    (e ∷ [], one ∙ ap (λ l. l ++ e ∷ []) (sym (grown ∙ append-nil s.events)))
Extends-next s t u e (x ∷ xs, grown) one cs ct cu le same =
    let more = ap length grown ∙ length-append s.events (x ∷ xs) in
    let most = ap length one ∙ length-append s.events (e ∷ []) in
    let equal : u.event_sequence ≡ t.event_sequence = ground (arith, more, most) in
    ([], ap (λ (v : CampaignState). v.events) (same equal) ∙ sym (append-nil t.events))

module _ (calendar : Calendar) {B : Type 0} (E : World → Type 0) (R : B → World → Type 0) where
  found-After :
      (o : Option CampaignState) (f : CampaignState → Exec B) (w : World)
      → E w
      → ((t : CampaignState) → o ≡ some t → After R E (f t w))
      → After R E (continue (found o w) f)
  found-After none f w h k = h
  found-After (some t) f w h k = k t refl

  -- The start of a section under the lock: the campaign is read, and is valid.
  pub section-After :
      (f : CampaignState → Exec B) (w : World)
      → E w
      → ((t : CampaignState)
          → w.file ≡ document t
          → validate calendar t ≡ ok tt
          → After R E (f t w))
      → After R E (continue (load_unlocked calendar w) (λ o v. continue (found o v) f))
  unfolding load_unlocked
  section-After f w h k =
      After-lift E R (read_file calendar w.file) w (λ o v. continue (found o v) f) h
        λ o is_ok. found-After o f w h λ t e.
          let (file, valid) = read_file-some calendar w.file t (is_ok ∙ ap ok e) in k t file valid

module _ (calendar : Calendar) (first : File) where
  found-Loaded :
      (o : Option CampaignState) (w : World)
      → Inv first w
      → ((t : CampaignState) → o ≡ some t → Loaded calendar first t w)
      → After (Loaded calendar first) (Inv first) (found o w)
  found-Loaded none w h k = h
  found-Loaded (some t) w h k = k t refl

  pub load-Loaded :
      (w : World) → Inv first w → After (Loaded calendar first) (Inv first) (load calendar w)
  unfolding load load_unlocked
  load-Loaded w inv =
      After-bind (Inv first) (λ _. Inv first) (Loaded calendar first) (enter w) _
        (enter-Inv first w inv)
        λ _ v h.
          After-lift (Inv first) (Loaded calendar first) (read_file calendar v.file) v found h
            λ o is_ok. found-Loaded o v h λ t e.
              let (file, valid) = read_file-some calendar v.file t (is_ok ∙ ap ok e) in
              (h, file, valid)

  save_over-Inv :
      (s t u : CampaignState) (e : CampaignEvent) (w : World)
      → Held first s w
      → w.file ≡ document t
      → Counted t
      → Counted u
      → u.events ≡ s.events ++ e ∷ []
      → After (λ r v. Inv first v × (r ≡ u)) (Inv first) (save_over u t w)
  save_over-Inv s t u e w (inv, grown, counted) file ct cu one =
      let (t', et, extends) = grown s refl in
      let same = document-injective t' t (sym et ∙ file) in
      After-if (Inv first) (λ r v. Inv first v × (r ≡ u)) (ltb u.event_sequence t.event_sequence)
        (raise _) _ w (λ _. inv)
        λ le.
          After-if (Inv first) (λ r v. Inv first v × (r ≡ u))
            (u.event_sequence == t.event_sequence && not (state_eq u t)) (raise _) _ w (λ _. inv)
            λ free.
              let next =
                Extends-next s t u e (subst (Extends s) same extends) one counted ct cu le (λ eq.
                  (state_eq_iff u t).0
                    (ground (arith, (==_iff u.event_sequence t.event_sequence).1 eq))) in
              After-bind (Inv first) (λ _ v. Inv first v × (v.file ≡ document u))
                (λ r v. Inv first v × (r ≡ u)) (save_unlocked u w) _
                (save_unlocked-Inv first u w inv (λ x ex. (
                  u,
                  refl,
                  subst (λ y. Extends y u) (document-injective t x (sym file ∙ ex)) next,
                )))
                (λ _ v h. (h.0, refl))

  identity-Counted :
      (key : StoreKey) (u : CampaignState) {a : Unit {0}}
      → validate_identity calendar key u ≡ ok a
      → Counted u
  unfolding validate_identity
  identity-Counted key u h =
      let (_, valid, _) = >>=-eq-ok (validate calendar u) _ h in validate-counted calendar u valid

  -- A state with one more event than one that was held, whatever happened in between.
  pub save-Inv :
      (key : StoreKey) (s u : CampaignState) (e : CampaignEvent) (w : World)
      → Held first s w
      → u.events ≡ s.events ++ e ∷ []
      → After (λ r v. Inv first v × (r ≡ u)) (Inv first) (save calendar key u w)
  unfolding save validate_identity
  save-Inv key s u e w held one =
      let Q = λ (r : CampaignState) (v : World). Inv first v × (r ≡ u) in
      After-lift (Inv first) Q (validate_identity calendar key u) w _ held.0 λ _ identity.
        After-bind (Inv first) (λ _. Held first s) Q (enter w) _ (enter-Held first s w held)
          λ _ v h. section-After calendar (Inv first) Q (save_over u) v h.0 λ t file valid.
            save_over-Inv s t u e v h file (validate-counted calendar t valid)
              (identity-Counted key u identity) one

  leased_by-Loaded :
      (s : CampaignState) (o : Option String) (w : World)
      → Loaded calendar first s w
      → After (λ _. Loaded calendar first s) (Inv first) (leased_by calendar s o w)
  unfolding now
  leased_by-Loaded s none w h = h
  leased_by-Loaded s (some owner) w h =
      After-lift (Inv first) (λ _. Loaded calendar first s)
        (parse_timestamp calendar (or_empty s.lease_expires_at)) w _ h.0 λ _ _. h

  abbrev pub Claims : Option CampaignState → World → Type 0
  Claims o w = Inv first w × ((s : CampaignState) → o ≡ some s → Held first s w)

  claimed-Claims :
      (worker_id : String) (expiry at : ℕ) (s : CampaignState) (w : World)
      → Loaded calendar first s w
      → After Claims (Inv first) (
          continue
            (save_unlocked (claimed calendar worker_id expiry at s) w)
            (λ _. pure (some (claimed calendar worker_id expiry at s))))
  claimed-Claims worker_id expiry at s w (inv, file, valid) =
      let c = claimed calendar worker_id expiry at s in
      After-bind (Inv first) (λ _ v. Inv first v × (v.file ≡ document c)) Claims (save_unlocked c w)
        _
        (save_unlocked-Inv first c w inv (λ x ex.
          (c, refl, subst (λ y. Extends y c) (document-injective s x (sym file ∙ ex)) (_, refl))))
        λ _ v h. (
          h.0,
          λ x ex.
              subst (λ y. Held first y v) (some-injective c x ex)
                (
                  h.0,
                  rw h.1 (Grown-refl (document c)),
                  omega (arith, validate-counted calendar s valid, length-append {0} s.events),
                ),
        )

  claim_section-Claims :
      (worker_id : String) (expiry : ℕ) (w : World)
      → Inv first w
      → After Claims (Inv first) (claim_section calendar worker_id expiry w)
  unfolding claim_section claim_found now
  claim_section-Claims worker_id expiry w inv =
      After-bind (Inv first) (λ _. Inv first) Claims (enter w) _ (enter-Inv first w inv)
        λ _ v h.
          section-After calendar (Inv first) Claims (claim_found calendar worker_id expiry) v h
            λ t file valid.
              After-if (Inv first) Claims (is_terminal t.status) (pure none) _ v
                (λ _. (h, λ s e. absurd (cc)))
                λ _.
                  After-bind (Inv first) (λ _. Loaded calendar first t) Claims
                    (is_leased calendar t v) _ (leased_by-Loaded t t.lease_owner v (h, file, valid))
                    λ busy x l.
                      After-if (Inv first) Claims busy (pure none) _ x
                        (λ _. (l.0, λ s e. absurd (cc)))
                        λ _.
                          claimed-Claims worker_id expiry (x.clock 0) t
                            (record x { clock = λ n. x.clock (suc n) }) l

  pub claim-Claims :
      (worker_id expires : String) (w : World)
      → Inv first w
      → After Claims (Inv first) (claim calendar worker_id expires w)
  unfolding claim
  claim-Claims worker_id expires w inv =
      After-raise_if (Inv first) Claims (not (is_worker worker_id))
        (campaign_runner_error "campaign worker identity is invalid") w
        (λ _. lift (parse_timestamp calendar expires) >>= claim_section calendar worker_id) inv
        λ _.
          After-lift (Inv first) Claims (parse_timestamp calendar expires) w
            (claim_section calendar worker_id) inv
            λ expiry _. claim_section-Claims worker_id expiry w inv
