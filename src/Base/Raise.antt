-- ===== src/Base/Raise.antt =====
-- Results of Python code that may raise: the value, or the exception's class with its message.
use Prim.Native.String.{String}
use mathlib.Core.Path.{◌≡◌, refl}
use mathlib.Core.Logic.{◌⊎◌, inl, inr}
use mathlib.Core.Bool.{Bool, true, false}
use mathlib.Core.List.{List, [], ◌∷◌}
use agf_orchestrator.Base.Lists.{All}
use agf_orchestrator.Base.Tests.{if◌then◌else◌}

-- The exception classes of the modelled modules, and those of Python that they raise or catch.
pub data Error : Type 0 where
  scheduler_validation_error scheduler_store_error scheduler_command_error : String → Error
  scheduler_loop_error selection_validation_error safety_gate_error : String → Error
  scheduler_recovery_error scheduler_journal_error roadmap_validation_error : String → Error
  merge_validation_error risk_validation_error risk_engine_error : String → Error
  session_store_error session_manager_error campaign_runner_error lock_error : String → Error
  causal_finding_error capability_profile_error capability_selection_error : String → Error
  value_error key_error recursion_error os_error assertion_error : String → Error

pub data Result {ℓ} (A : Type ℓ) : Type ℓ where
  ok : A → Result A
  raise : Error → Result A

-- The statements after one that may raise.
abbrev pub ◌>>=◌ {ℓ κ} : {T : Type ℓ} → {R : Type κ} → Result T → (T → Result R) → Result R
raise e >>= next = raise e
ok v >>= next = next v

infixl 5 ◌>>=◌
-- A statement that gives no value, and the statements after it.
abbrev pub ◌>>◌ {κ} : {R : Type κ} → Result (Unit {0}) → Result R → Result R
check >> rest = check >>= λ done. rest

infixl 5 ◌>>◌
-- `if bad: raise e`
abbrev pub raise_if : Bool → Error → Result (Unit {0})
raise_if bad e = if bad then raise e else ok tt

-- A run of `if not test: raise error` statements, in order.
abbrev pub require_all : List (Bool × Error) → Result (Unit {0})
require_all [] = ok tt
require_all ((test, e) ∷ checks) = let rest = require_all checks in if test then rest else raise e

-- The run ends normally only if every test holds.
pub require_all-eq-ok :
    (cs : List (Bool × Error)) → require_all cs ≡ ok tt → All (λ c. c.0 ≡ true) cs
require_all-eq-ok [] h = tt
require_all-eq-ok ((true, e) ∷ cs) h = (refl, require_all-eq-ok cs h)
require_all-eq-ok ((false, e) ∷ cs) h = cc

pub require_all_of_All :
    (cs : List (Bool × Error)) → All (λ c. c.0 ≡ true) cs → require_all cs ≡ ok tt
require_all_of_All [] h = refl
require_all_of_All ((true, e) ∷ cs) h = require_all_of_All cs h.1
require_all_of_All ((false, e) ∷ cs) h = cc

-- A bind that ends normally: so did both parts.
pub >>=-eq-ok {ℓ κ} :
    {T : Type ℓ}
    → {R : Type κ} → (first : Result T) → (next : T → Result R) → {r : R} → (first >>= next) ≡ ok r
    → (v : T) × (first ≡ ok v) × (next v ≡ ok r)
>>=-eq-ok (raise e) next h = cc
>>=-eq-ok (ok v) next h = (v, refl, h)

-- `str(exc)`
abbrev pub message : Error → String
message (scheduler_validation_error m) = m
message (scheduler_store_error m) = m
message (scheduler_command_error m) = m
message (scheduler_loop_error m) = m
message (selection_validation_error m) = m
message (safety_gate_error m) = m
message (scheduler_recovery_error m) = m
message (scheduler_journal_error m) = m
message (roadmap_validation_error m) = m
message (merge_validation_error m) = m
message (risk_validation_error m) = m
message (risk_engine_error m) = m
message (session_store_error m) = m
message (session_manager_error m) = m
message (campaign_runner_error m) = m
message (lock_error m) = m
message (causal_finding_error m) = m
message (capability_profile_error m) = m
message (capability_selection_error m) = m
message (value_error m) = m
message (key_error m) = m
message (recursion_error m) = m
message (os_error m) = m
message (assertion_error m) = m

pub ok-injective {ℓ} : {A : Type ℓ} (a b : A) → ok a ≡ ok b → a ≡ b
ok-injective a b h = cc

-- To split on a result that is computed.
pub Result-cases {ℓ} :
    {A : Type ℓ} (r : Result A) → ((a : A) × (r ≡ ok a)) ⊎ ((e : Error) × (r ≡ raise e))
Result-cases (ok a) = inl (a, refl)
Result-cases (raise e) = inr (e, refl)
