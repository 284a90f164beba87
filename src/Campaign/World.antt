-- ===== src/Campaign/World.antt =====
-- What a campaign's methods read and write (src/agf_orchestrator/campaign_runner.py), and the actions on it.
-- Other processes may write the campaign's file whenever this one does not hold the project's lock.
pub mod After
pub mod Grown
use agf_orchestrator.Base.{
  ℕ, suc, Bool, true, false, Option, none, some, List, [], ◌∷◌, String, ◌≡◌, ◌↔◌, refl, inl, inr,
  Bool-cases, if◌then◌else◌,
}
use agf_orchestrator.Base.Raise.{
  Error, Result, ok, raise as raised, campaign_runner_error, lock_error, message,
}
use agf_orchestrator.Base.Text.{str_discrete}
use native.Mathlib.Decide.{ℕ_discrete}
use agf_orchestrator.Campaign.Models.{
  Calendar, CampaignState, CampaignStatus, CampaignEvent, validate,
}

-- The campaign's file: absent, unreadable, refused by `campaign_from_dict` before it validates, or the
-- document of a state.
pub data File : Type 0 where
  absent unreadable : File
  malformed : Error → File
  document : CampaignState → File

-- The payload of a deferred retry.
pub record Deferred : Type 0 where
  pub schema_version : String
  pub before : CampaignState
  pub after : CampaignState
  pub sha256 : String

-- A file beside the campaign's: absent, no payload of a deferred retry, a payload, or a campaign's own file.
pub data Sidecar : Type 0 where
  missing broken : Sidecar
  payload : Deferred → Sidecar
  campaign : CampaignState → Sidecar

-- `turns n` is what others write before this process enters its n-th section under the project's lock;
-- `locks n` is the message of the `LockError` of its n-th acquisition, and `disks n` that of the `OSError` of
-- its n-th write. `clock n` is the n-th time it reads.
pub record World : Type 0 where
  pub file : File
  pub deferred : Sidecar
  pub legacy : Sidecar
  pub clock : ℕ → ℕ
  pub locks : ℕ → Option String
  pub disks : ℕ → Option String
  pub turns : ℕ → File → File

-- A method that may raise. What was written before stays written.
abbrev pub Exec : Type 0 → Type 0
Exec A = World → Result A × World

abbrev pub pure : {A : Type 0} → A → Exec A
pure a w = (ok a, w)

abbrev pub raise : {A : Type 0} → Error → Exec A
raise e w = (raised e, w)

-- A computation that reads and writes nothing.
abbrev pub lift : {A : Type 0} → Result A → Exec A
lift r w = (r, w)

abbrev pub continue : {A B : Type 0} → Result A × World → (A → Exec B) → Result B × World
continue (ok a, w) f = f a w
continue (raised e, w) f = (raised e, w)

abbrev pub ◌>>=◌ : {A B : Type 0} → Exec A → (A → Exec B) → Exec B
◌>>=◌ m f w = continue (m w) f

infixl 5 ◌>>=◌
abbrev pub ◌>>◌ : {B : Type 0} → Exec (Unit {0}) → Exec B → Exec B
m >> n = m >>= λ _. n

infixl 5 ◌>>◌
-- `raise e` if the test holds.
abbrev pub raise_if : Bool → Error → Exec (Unit {0})
raise_if bad e = if bad then raise e else pure tt

-- `self.now()`
unfoldable pub now : Exec ℕ
now w = (ok (w.clock 0), record w { clock = λ n. w.clock (suc n) })

abbrev pub acquired : Option String → Exec (Unit {0})
acquired none = pure tt
acquired (some m) = raise (lock_error m)

-- The lock of the campaign's operations, which others hold only for operations of their own.
unfoldable pub acquire : Exec (Unit {0})
acquire w = acquired (w.locks 0) (record w { locks = λ n. w.locks (suc n) })

-- `with project_lock(…)`: others write before the lock is taken, and not before the section ends.
unfoldable pub enter : Exec (Unit {0})
enter w = acquired (w.locks 0) (record w {
  file = w.turns 0 w.file;
  turns = λ n. w.turns (suc n);
  locks = λ n. w.locks (suc n);
})

abbrev pub checked : Result (Unit {0}) → CampaignState → Result (Option CampaignState)
checked (ok _) s = ok (some s)
checked (raised e) s = raised e

-- `_load_unlocked`; `campaign_from_dict` validates the state that it builds.
abbrev pub read_file : Calendar → File → Result (Option CampaignState)
read_file calendar absent = ok none
read_file calendar unreadable = raised (campaign_runner_error "campaign state cannot be read")
read_file calendar (malformed e) = raised e
read_file calendar (document s) = checked (validate calendar s) s

unfoldable pub load_unlocked : Calendar → Exec (Option CampaignState)
load_unlocked calendar w = (read_file calendar w.file, w)

abbrev pub written : Option String → CampaignState → Exec (Unit {0})
written none s w = (ok tt, record w { file = document s })
written (some m) s w = (raised (campaign_runner_error "campaign state write failed"), w)

-- `_save_unlocked`: the file is replaced whole or not at all.
unfoldable pub save_unlocked : CampaignState → Exec (Unit {0})
save_unlocked s w = written (w.disks 0) s (record w { disks = λ n. w.disks (suc n) })

pub CampaignStatus-discrete : Discrete CampaignStatus
CampaignStatus-discrete = hlevel

CampaignEvent-discrete : Discrete CampaignEvent
CampaignEvent-discrete = hlevel (ℕ_discrete, str_discrete)

CampaignState-discrete : Discrete CampaignState
CampaignState-discrete = hlevel (ℕ_discrete, str_discrete)

abbrev pub is_yes {ℓ} : {A : Type ℓ} → Dec A → Bool
is_yes (yes _) = true
is_yes (no _) = false

is_yes_iff {ℓ} : {A : Type ℓ} (d : Dec A) → (is_yes d ≡ true) ↔ A
is_yes_iff (yes a) = (λ _. a, λ _. refl)
is_yes_iff (no n) = (λ e. cc, λ a. absurd (n a))

-- `a == b`, field by field
unfoldable pub state_eq : CampaignState → CampaignState → Bool
unfolding CampaignState-discrete CampaignEvent-discrete CampaignStatus-discrete str_discrete
    ℕ_discrete
state_eq a b = is_yes (CampaignState-discrete a b)

pub state_eq_iff : (a b : CampaignState) → (state_eq a b ≡ true) ↔ (a ≡ b)
unfolding state_eq
state_eq_iff a b = is_yes_iff (CampaignState-discrete a b)

unfoldable pub status_is : CampaignStatus → CampaignStatus → Bool
unfolding CampaignStatus-discrete
status_is a b = is_yes (CampaignStatus-discrete a b)
