-- ===== src/Capability/Profiles.antt =====
-- Capability profiles (src/agf_orchestrator/capability_profiles.py).
use Prim.Native.String.{◌++◌}
use agf_orchestrator.Base.{
  ℕ, Bool, true, false, not, ◌&&◌, ◌||◌, Option, none, some, List, [], ◌∷◌, String, if◌then◌else◌,
  length, leb, ◌==◌, keep,
}
use agf_orchestrator.Base.Int.{ℤ, pos, leb_ℤ}
use agf_orchestrator.Base.Raise.{
  Error, Result, ok, raise, capability_profile_error, require_all, raise_if, ◌>>=◌, ◌>>◌,
}
use agf_orchestrator.Base.Text.{
  str_eq, str_mem, starts_with, has_secret, is_bounded_text, is_identifier, is_hex_text,
  is_timestamp,
}
use agf_orchestrator.Base.Text.Tokens.{has_token}

pub data CapabilityStatus : Type 0 where
  supported unsupported unknown : CapabilityStatus

abbrev pub is_supported : CapabilityStatus → Bool
is_supported supported = true
is_supported _ = false

pub record CapabilityObservation : Type 0 where
  pub name : String
  pub status : CapabilityStatus
  pub value : Option String

pub record CapabilityProfile : Type 0 where
  pub schema_version : String
  pub profile_id : String
  pub project_id : String
  pub provider_id : String
  pub profile_version : ℤ
  pub provenance_source : String
  pub provenance_sha256 : String
  pub observed_at : String
  pub expires_at : Option String
  pub capabilities : List CapabilityObservation
  pub profile_sha256 : String

-- What the checks ask of the platform: SHA-256 of a text and of a profile's canonical JSON, the instant that
-- `strptime` reads, and the `repr` of a text.
pub record Platform : Type 0 where
  pub sha256_text : String → String
  pub content_hash : CapabilityProfile → String
  pub instant : String → Option ℕ
  pub repr : String → String

-- `_bounded_text`
abbrev pub text_checks : String → String → List (Bool × Error)
text_checks label value =
    (is_bounded_text value, capability_profile_error (label ++ " is invalid"))
    ∷ (
      not (has_secret value || has_token value),
      capability_profile_error (label ++ " contains secret-shaped data"),
    )
    ∷ []

abbrev pub value_checks : Option String → List (Bool × Error)
value_checks none = []
value_checks (some value) = text_checks "capability value" value

-- `CapabilityObservation.validate`
unfoldable pub validate_observation : CapabilityObservation → Result (Unit {0})
validate_observation c = do
  require_all (text_checks "capability name" c.name)
  require_all (value_checks c.value)

-- The loop over the capabilities.
unfoldable pub validate_capabilities : List String → List CapabilityObservation → Result (Unit {0})
unfolding validate_observation
validate_capabilities names [] = ok tt
validate_capabilities names (c ∷ cs) =
    let rest = validate_capabilities (c.name ∷ names) cs in
    validate_observation c
    >> raise_if (str_mem c.name names) (capability_profile_error "capability names must be unique")
    >> rest

abbrev pub instant_of : Option ℕ → Result ℕ
instant_of none = raise (capability_profile_error "timestamp is not a real UTC instant")
instant_of (some t) = ok t

-- `_timestamp`
abbrev pub timestamp : Platform → String → Result ℕ
timestamp platform value = instant_of (platform.instant value)

-- `capability_profile_hash`
abbrev pub capability_profile_hash : Platform → CapabilityProfile → String
capability_profile_hash platform p = platform.content_hash (record p { profile_sha256 = "" })

abbrev pub identity_checks : CapabilityProfile → List (Bool × Error)
identity_checks p =
    (str_eq p.schema_version "1.0", capability_profile_error "schema_version must be 1.0")
    ∷ (
      is_identifier "" p.profile_id && starts_with p.profile_id "profile-",
      capability_profile_error "profile_id is invalid",
    )
    ∷ (is_identifier "project-" p.project_id, capability_profile_error "project_id is invalid")
    ∷ (is_identifier "" p.provider_id, capability_profile_error "provider_id is invalid")
    ∷ (leb_ℤ (pos 1) p.profile_version, capability_profile_error "profile_version must be positive")
    ∷ []

abbrev pub provenance_checks : Platform → CapabilityProfile → List (Bool × Error)
provenance_checks platform p =
    (is_hex_text "" 64 p.provenance_sha256, capability_profile_error "provenance_sha256 is invalid")
    ∷ (
      str_eq p.provenance_sha256 (platform.sha256_text p.provenance_source),
      capability_profile_error "provenance_sha256 does not match provenance",
    )
    ∷ (is_timestamp p.observed_at, capability_profile_error "observed_at is invalid")
    ∷ []

-- The checks of `expires_at` against the instant of `observed_at`.
abbrev pub check_expiry : Platform → ℕ → Option String → Result (Unit {0})
check_expiry platform observed none = ok tt
check_expiry platform observed (some expires_at) = do
  raise_if (not (is_timestamp expires_at)) (capability_profile_error "expires_at is invalid")
  expires ← timestamp platform expires_at
  raise_if (leb expires observed) (capability_profile_error "expires_at must be after observed_at")

abbrev pub size_checks : CapabilityProfile → List (Bool × Error)
size_checks p =
    (not (length p.capabilities == 0), capability_profile_error "capabilities must not be empty")
    ∷ (leb (length p.capabilities) 200, capability_profile_error "capabilities exceed the bound")
    ∷ []

abbrev pub hash_checks : Platform → CapabilityProfile → List (Bool × Error)
hash_checks platform p =
    (is_hex_text "" 64 p.profile_sha256, capability_profile_error "profile_sha256 is invalid")
    ∷ (
      str_eq p.profile_sha256 (capability_profile_hash platform p),
      capability_profile_error "profile_sha256 does not match profile content",
    )
    ∷ []

-- `CapabilityProfile.validate`
unfoldable pub validate : Platform → CapabilityProfile → Result (Unit {0})
unfolding validate_capabilities
validate platform p = do
  require_all (identity_checks p)
  require_all (text_checks "provenance_source" p.provenance_source)
  require_all (provenance_checks platform p)
  observed ← timestamp platform p.observed_at
  check_expiry platform observed p.expires_at
  require_all (size_checks p)
  validate_capabilities [] p.capabilities
  require_all (hash_checks platform p)

abbrev pub given : String → Option String → Result String
given quoted none = raise (capability_profile_error ("capability " ++ (quoted ++ " has no value")))
given quoted (some v) = ok v

-- The end of `require_supported`, on the capabilities of that name.
abbrev pub supported_value : String → List CapabilityObservation → Result String
supported_value quoted [] =
    raise (capability_profile_error ("capability " ++ (quoted ++ " is not supported")))
supported_value quoted (c ∷ d ∷ cs) =
    raise (capability_profile_error ("capability " ++ (quoted ++ " is not supported")))
supported_value quoted (c ∷ []) =
    if not (is_supported c.status)
    then raise (capability_profile_error ("capability " ++ (quoted ++ " is not supported")))
    else given quoted c.value

-- `require_supported`
abbrev pub require_supported : Platform → CapabilityProfile → String → Result String
require_supported platform p name =
    supported_value (platform.repr name) (keep (λ c. str_eq c.name name) p.capabilities)

-- `validate_binding`
abbrev pub validate_binding : String → String → CapabilityProfile → Result (Unit {0})
validate_binding project_id provider_id p =
    raise_if (not (str_eq p.project_id project_id) || not (str_eq p.provider_id provider_id))
      (capability_profile_error "profile binding does not match request")

abbrev pub expired : Platform → ℕ → Option String → Result Bool
expired platform now none = ok false
expired platform now (some expires_at) = timestamp platform expires_at >>= λ t. ok (leb t now)

-- `is_stale`
abbrev pub is_stale : Platform → CapabilityProfile → String → Result Bool
is_stale platform p now = do
  raise_if (not (is_timestamp now)) (capability_profile_error "now is invalid")
  instant ← timestamp platform now
  expired platform instant p.expires_at

-- `validate_at`
unfoldable pub validate_at : Platform → CapabilityProfile → String → Result (Unit {0})
unfolding validate
validate_at platform p now = do
  validate platform p
  stale ← is_stale platform p now
  raise_if stale (capability_profile_error "profile evidence is stale")
