-- ===== src/Permission.antt =====
-- src-tauri/src/security/permission.rs: permission presets, isolation and the execution policy.
pub mod Lattice
pub mod Config
mod Tests
use gpt_tools_mcp.Prelude.{
  ℕ, String, Bool, true, false, not, ◌&&◌, ◌||◌, Option, none, some, leb, ltb, ◌==◌, str_eq,
  if◌then◌else◌,
}

pub data PermissionPreset : Type 0 where
  default full_access : PermissionPreset

pub data IsolationPolicy : Type 0 where
  strict compatibility host : IsolationPolicy

pub data LegacyRestrictions : Type 0 where
  restricted trusted dangerous : LegacyRestrictions

pub record ExecutionPolicy : Type 0 where
  pub preset : PermissionPreset
  pub isolation : IsolationPolicy
  pub network_allowed : Bool
  pub legacy : Option LegacyRestrictions

-- The order that `PartialOrd` derives: the order of declaration.
abbrev pub preset_rank : PermissionPreset → ℕ
preset_rank default = 0
preset_rank full_access = 1

-- `PermissionPreset::as_str`.
abbrev pub as_str : PermissionPreset → String
as_str default = "default"
as_str full_access = "full_access"

-- `PermissionPreset::restrictive` is `min`.
unfoldable pub restrictive_preset : PermissionPreset → PermissionPreset → PermissionPreset
restrictive_preset a b = if leb (preset_rank a) (preset_rank b) then a else b

abbrev pub is_strict : IsolationPolicy → Bool
is_strict strict = true
is_strict _ = false

abbrev pub is_compatibility : IsolationPolicy → Bool
is_compatibility compatibility = true
is_compatibility _ = false

abbrev pub is_host : IsolationPolicy → Bool
is_host host = true
is_host _ = false

-- `IsolationPolicy::restrictive`.
unfoldable pub restrictive_isolation : IsolationPolicy → IsolationPolicy → IsolationPolicy
restrictive_isolation a b =
    if is_strict a || is_strict b
    then strict
    else if is_compatibility a || is_compatibility b
    then compatibility
    else host

-- `ExecutionPolicy::legacy_config_value`.
unfoldable pub legacy_config_value : ExecutionPolicy → String
legacy_config_value p = elim p.legacy [
  | some l ↦ elim l [ restricted ↦ "restricted" | trusted ↦ "trusted" | dangerous ↦ "dangerous" ]
  | none ↦ as_str p.preset
]

pub data ConfigError : Type 0 where
  host_needs_full_access : ConfigError
  unsupported_version : ℕ → ConfigError
  unknown_preset : String → ConfigError

pub data Result {ℓ} (A : Type ℓ) : Type ℓ where
  ok : A → Result A
  err : ConfigError → Result A

-- The words of the three patterns of version 0.
unfoldable pub is_restricted_word : String → Bool
is_restricted_word v = str_eq v "safe" || (str_eq v "restricted" || str_eq v "ask")

unfoldable pub is_trusted_word : String → Bool
is_trusted_word v =
    str_eq v ""
    || (str_eq v "default"
        || (str_eq v "trusted" || (str_eq v "developer" || str_eq v "auto_approve")))

unfoldable pub is_dangerous_word : String → Bool
is_dangerous_word v = str_eq v "dangerous" || (str_eq v "admin" || str_eq v "full_access")

abbrev pub policy :
    IsolationPolicy → PermissionPreset → Bool → Option LegacyRestrictions → ExecutionPolicy
policy isolation preset network legacy = record {
  preset = preset;
  isolation = isolation;
  network_allowed = network;
  legacy = legacy;
}

-- The `match (version, value)` of `from_config`.
unfoldable pub from_words : String → ℕ → IsolationPolicy → Result ExecutionPolicy
from_words v version isolation =
    if version == 1 && str_eq v "default"
    then ok (policy isolation default true none)
    else if version == 1 && str_eq v "full_access"
    then ok (policy isolation full_access true none)
    else if version == 0 && is_restricted_word v
    then ok (policy isolation default false (some restricted))
    else if version == 0 && is_trusted_word v
    then ok (policy isolation default true (some trusted))
    else if version == 0 && is_dangerous_word v
    then ok (policy isolation full_access true (some dangerous))
    else err (unknown_preset v)

-- `ExecutionPolicy::from_config`.
unfoldable pub from_config : String → ℕ → IsolationPolicy → Result ExecutionPolicy
unfolding from_words
from_config v version isolation =
    if is_host isolation && (not (version == 1) || not (str_eq v "full_access"))
    then err host_needs_full_access
    else if ltb 1 version
    then err (unsupported_version version)
    else from_words v version isolation

abbrev is_full : PermissionPreset → Bool
is_full full_access = true
is_full default = false

abbrev is_none : Option LegacyRestrictions → Bool
is_none none = true
is_none (some l) = false

-- `ExecutionPolicy::host_access`.
unfoldable pub host_access : ExecutionPolicy → Bool
host_access p = is_full p.preset && (is_host p.isolation && is_none p.legacy)

-- The closure `legacy_rank` of `intersect`.
abbrev pub legacy_rank : Option LegacyRestrictions → ℕ
legacy_rank none = 3
legacy_rank (some restricted) = 0
legacy_rank (some trusted) = 1
legacy_rank (some dangerous) = 2

-- The choice of the `legacy` field in `intersect`.
unfoldable pub restrictive_legacy :
    Option LegacyRestrictions → Option LegacyRestrictions → Option LegacyRestrictions
restrictive_legacy a b = if leb (legacy_rank a) (legacy_rank b) then a else b

-- `ExecutionPolicy::intersect`.
unfoldable pub intersect : ExecutionPolicy → ExecutionPolicy → ExecutionPolicy
unfolding restrictive_preset restrictive_isolation restrictive_legacy
intersect a b = record {
  preset = restrictive_preset a.preset b.preset;
  isolation = restrictive_isolation a.isolation b.isolation;
  network_allowed = a.network_allowed && b.network_allowed;
  legacy = restrictive_legacy a.legacy b.legacy;
}
