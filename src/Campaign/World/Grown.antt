-- ===== src/Campaign/World/Grown.antt =====
-- Files whose event log has only grown, and worlds in which others only let it grow.
use agf_orchestrator.Base.{
  ℕ, suc, ◌≡◌, refl, sym, ap, ◌∙◌, String, List, [], ◌++◌, length, Option, none, some,
}
use mathlib.Core.List.{append_assoc, append-nil}
use agf_orchestrator.Campaign.Models.{CampaignState, CampaignEvent}
use agf_orchestrator.Campaign.World.{
  World, File, document, now, enter, acquire, acquired, save_unlocked, written,
}
use agf_orchestrator.Campaign.World.After.{After}

abbrev pub Extends : CampaignState → CampaignState → Type 0
Extends s t = (es : List CampaignEvent) × (t.events ≡ s.events ++ es)

pub Extends-trans : (s t u : CampaignState) → Extends s t → Extends t u → Extends s u
Extends-trans s t u (es, p) (fs, q) =
    (es ++ fs, q ∙ ap (λ l. l ++ fs) p ∙ append_assoc s.events es fs)

-- If the first file holds a campaign, so does the second, and its log begins with the first one's.
abbrev pub Grown : File → File → Type 0
Grown f g =
    (s : CampaignState) → f ≡ document s → (t : CampaignState) × (g ≡ document t) × Extends s t

pub Grown-refl : (f : File) → Grown f f
Grown-refl f s e = (s, e, ([], sym (append-nil s.events)))

pub Grown-trans : (f g h : File) → Grown f g → Grown g h → Grown f h
Grown-trans f g h p q s e =
    let (t, et, st) = p s e in let (u, eu, tu) = q t et in (u, eu, Extends-trans s t u st tu)

-- Other processes never shorten or replace the log.
abbrev pub Rely : World → Type 0
Rely w = (n : ℕ) (f : File) → Grown f (w.turns n f)

-- The log has grown from a first file on.
abbrev pub Inv : File → World → Type 0
Inv first w = Rely w × Grown first w.file

abbrev pub Counted : CampaignState → Type 0
Counted s = length s.events ≡ s.event_sequence

-- A state that was loaded, or written, and that others may have gone on from.
abbrev pub Held : File → CampaignState → World → Type 0
Held first s w = Inv first w × Grown (document s) w.file × Counted s

module _ (first : File) where
  pub now-Held :
      (s : CampaignState) (w : World)
      → Held first s w
      → After (λ _. Held first s) (Held first s) (now w)
  unfolding now
  now-Held s w h = h

  pub now-Inv : (w : World) → Inv first w → After (λ _. Inv first) (Inv first) (now w)
  unfolding now
  now-Inv w h = h

  acquired-Inv :
      (o : Option String) (w : World)
      → Inv first w
      → After (λ _. Inv first) (Inv first) (acquired o w)
  acquired-Inv none w h = h
  acquired-Inv (some m) w h = h

  pub acquire-Inv : (w : World) → Inv first w → After (λ _. Inv first) (Inv first) (acquire w)
  unfolding acquire
  acquire-Inv w h = acquired-Inv (w.locks 0) (record w { locks = λ n. w.locks (suc n) }) h

  abbrev turned : World → World
  turned w = record w {
    file = w.turns 0 w.file;
    turns = λ n. w.turns (suc n);
    locks = λ n. w.locks (suc n);
  }

  turned-Inv : (w : World) → Inv first w → Inv first (turned w)
  turned-Inv w (rely, grown) =
      ((λ n. rely (suc n)), Grown-trans first w.file (w.turns 0 w.file) grown (rely 0 w.file))

  pub enter-Inv : (w : World) → Inv first w → After (λ _. Inv first) (Inv first) (enter w)
  unfolding enter
  enter-Inv w h = acquired-Inv (w.locks 0) (turned w) (turned-Inv w h)

  acquired-Held :
      (o : Option String) (s : CampaignState) (w : World)
      → Held first s w
      → After (λ _. Held first s) (Inv first) (acquired o w)
  acquired-Held none s w h = h
  acquired-Held (some m) s w h = h.0

  pub enter-Held :
      (s : CampaignState) (w : World)
      → Held first s w
      → After (λ _. Held first s) (Inv first) (enter w)
  unfolding enter
  enter-Held s w (inv, grown, counted) = acquired-Held (w.locks 0) s (turned w) (
    turned-Inv w inv,
    Grown-trans (document s) w.file (w.turns 0 w.file) grown (inv.0 0 w.file),
    counted,
  )

  written-Inv :
      (o : Option String) (s : CampaignState) (w : World)
      → Inv first w
      → Grown w.file (document s)
      → After (λ _ v. Inv first v × (v.file ≡ document s)) (Inv first) (written o s w)
  written-Inv none s w (rely, grown) step =
      ((rely, Grown-trans first w.file (document s) grown step), refl)
  written-Inv (some m) s w h step = h

  pub save_unlocked-Inv :
      (s : CampaignState) (w : World)
      → Inv first w
      → Grown w.file (document s)
      → After (λ _ v. Inv first v × (v.file ≡ document s)) (Inv first) (save_unlocked s w)
  unfolding save_unlocked
  save_unlocked-Inv s w h step =
      written-Inv (w.disks 0) s (record w { disks = λ n. w.disks (suc n) }) h step
