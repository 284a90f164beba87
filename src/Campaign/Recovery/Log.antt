-- ===== src/Campaign/Recovery/Log.antt =====
-- The recovery of a deferred retry only lets the campaign's log grow.
use agf_orchestrator.Base.{
  suc, ◌≡◌, refl, sym, ap, ◌∙◌, subst, Option, none, some, String, true, false, not,
}
use agf_orchestrator.Base.Raise.{ok}
use agf_orchestrator.Campaign.Models.{CampaignState, Calendar, StoreKey}
use agf_orchestrator.Campaign.World.{
  World, File, document, Deferred, state_eq_iff, enter, load_unlocked, save_unlocked, read_file,
  raise, lift, raise_if, ◌>>=◌,
}
use agf_orchestrator.Campaign.World.After.{After, After-bind, After-lift, After-if, After-weaken}
use agf_orchestrator.Campaign.World.Grown.{Extends, Grown, Inv, enter-Inv, save_unlocked-Inv}
use agf_orchestrator.Campaign.Store.Log.{read_file-some, document-injective}
use agf_orchestrator.Campaign.Deferred.{
  Digest, read_deferred, deferred_steps, is_present, conflict, same_steps,
}
use agf_orchestrator.Campaign.Deferred.Step.{Steps, IsRetryOf, deferred_steps-eq-ok}
use agf_orchestrator.Campaign.Recovery.{
  linked, defer_new, defer_retry, unlinked, is_state, carried, carry_over, recover_deferred_retry,
}

IsRetryOf-Extends : (before after : CampaignState) → IsRetryOf before after → Extends before after
IsRetryOf-Extends before after (reason, ts, same, _) =
    (_, ap (λ (s : CampaignState). s.events) same)

is_state-eq : (o : Option CampaignState) (s : CampaignState) → is_state o s ≡ true → o ≡ some s
is_state-eq none s h = absurd (cc)
is_state-eq (some t) s h = ap some ((state_eq_iff t s).0 h)

module _ (calendar : Calendar) (first : File) where
  carried-Inv :
      (before after : CampaignState) (current : Option CampaignState) (w : World)
      → Steps (before, after)
      → Inv first w
      → ((s : CampaignState) → current ≡ some s → w.file ≡ document s)
      → After (λ _. Inv first) (Inv first) (carried before after current w)
  carried-Inv before after current w step inv held =
      After-if (Inv first) (λ _. Inv first) (is_state current before) (save_unlocked after) _ w
        (λ same.
          let grown : Grown (document before) (document after) = λ x ex. (
            after,
            refl,
            subst (λ y. Extends y after) (document-injective before x ex)
                (IsRetryOf-Extends before after step),
          ) in
          After-weaken (Inv first) (λ _ v. Inv first v × (v.file ≡ document after)) (λ _. Inv first)
            (save_unlocked after w) (λ _ v h. h.0)
            (save_unlocked-Inv first after w inv (
              subst (λ f. Grown f (document after))
                (sym (held before (is_state-eq current before same))) grown)))
        (λ _.
          After-if (Inv first) (λ _. Inv first) (not (is_state current after)) (raise _) _ w
            (λ _. inv) (λ _. inv))

  carry_over-Inv :
      (key : StoreKey) (o : Option (CampaignState × CampaignState)) (w : World)
      → ((p : CampaignState × CampaignState) → o ≡ some p → Steps p)
      → Inv first w
      → After (λ _. Inv first) (Inv first) (carry_over calendar key o w)
  unfolding carry_over load_unlocked
  carry_over-Inv key none w steps inv = inv
  carry_over-Inv key (some (before, after)) w steps inv =
      After-bind (Inv first) (λ _. Inv first) (λ _. Inv first) (enter w) _ (enter-Inv first w inv)
        λ _ v h.
          After-lift (Inv first) (λ _. Inv first) (read_file calendar v.file) v _ h
            λ o is_ok.
              After-bind (Inv first) (λ _. Inv first) (λ _. Inv first) (carried before after o v)
                (λ _. unlinked calendar key)
                (carried-Inv before after o v (steps (before, after) refl) h
                  (λ s e. (read_file-some calendar v.file s (is_ok ∙ ap ok e)).0))
                λ _ x i. i

  pub recover-Inv :
      (key : StoreKey) (digest : Digest) (w : World)
      → Inv first w
      → After (λ _. Inv first) (Inv first) (recover_deferred_retry calendar key digest w)
  unfolding recover_deferred_retry
  recover-Inv key digest w inv =
      After-lift (Inv first) (λ _. Inv first)
        (deferred_steps calendar key digest w.deferred w.legacy) w (carry_over calendar key) inv
        λ o is_ok.
          carry_over-Inv key o w
            (λ p e.
              deferred_steps-eq-ok calendar key digest w.deferred w.legacy p (is_ok ∙ ap ok e))
            inv

  linked-Inv :
      (o : Option String) (d : Deferred) (w : World)
      → Inv first w
      → After (λ _. Inv first) (Inv first) (linked o d w)
  linked-Inv none d w h = h
  linked-Inv (some m) d w h = h

  pub defer_retry-Inv :
      (key : StoreKey) (digest : Digest) (before after : CampaignState) (w : World)
      → Inv first w
      → After (λ _. Inv first) (Inv first) (defer_retry calendar key digest before after w)
  unfolding defer_retry
  defer_retry-Inv key digest before after w inv =
      After-if (Inv first) (λ _. Inv first) (is_present w.deferred)
        (lift (read_deferred calendar key digest false w.deferred) >>= λ steps.
          raise_if (not (same_steps steps (before, after))) conflict)
        (defer_new digest before after) w
        (λ _.
          After-lift (Inv first) (λ _. Inv first)
            (read_deferred calendar key digest false w.deferred) w _ inv
            λ steps _.
              After-if (Inv first) (λ _. Inv first) (not (same_steps steps (before, after)))
                (raise conflict) _ w (λ _. inv) (λ _. inv))
        (λ _. linked-Inv (w.disks 0) _ (record w { disks = λ n. w.disks (suc n) }) inv)
