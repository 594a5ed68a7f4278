-- ===== src/Policy.antt =====
-- src-tauri/src/tools/policy.rs: which commands and patches a policy lets through. `Scan` reads the
-- text of a command, `Words` its first word, `Assess` weighs it. Texts are lists of code points.
pub mod Settings
pub mod Scan
pub mod Assess
pub mod Words
pub mod Quoting
pub mod Quotes
pub mod Limits
pub mod Asks
pub mod Tests
use gpt_tools_mcp.Prelude.{ℕ, String, Bool, List, Option, ◌⊎◌}
use gpt_tools_mcp.Permission.{ExecutionPolicy}

abbrev pub Text : Type 0
Text = List ℕ

pub record PolicySettings : Type 0 where
  pub allowed_commands : List Text
  pub workspace_local_entries : Bool
  pub workspace_script_extensions : List Text
  pub max_patch_bytes : ℕ
  pub permissions : ExecutionPolicy

pub data CommandCapability : Type 0 where
  shell_syntax : CommandCapability
  dangerous_operation : CommandCapability
  network : CommandCapability
  unlisted_executable : CommandCapability
  custom_environment : CommandCapability

-- One constructor for each message of `PolicyError`.
pub data PolicyError : Type 0 where
  needs_command : PolicyError
  too_long : PolicyError
  isolation_unsatisfied : PolicyError
  external_execution : PolicyError
  workdir_outside : PolicyError
  path_outside : PolicyError
  protected_asset : PolicyError
  network_not_allowed : PolicyError
  invalid_syntax : PolicyError
  empty_command : PolicyError
  env_not_object : PolicyError
  invalid_env : PolicyError
  timeout_exceeded : PolicyError
  not_approved : CommandCapability → PolicyError
  needs_patch : PolicyError
  patch_too_large : PolicyError

-- What comes from outside the repository: the five regular expressions, the splitting of a command
-- into words, `Path::is_absolute`, and whether a component of a path is `..`.
pub record Matchers : Type 0 where
  pub network_command : Text → Bool
  pub dangerous_command : Text → Bool
  pub interpreter_mutation : Text → Bool
  pub rooted_argument : Text → Bool
  pub drive_argument : Text → Bool
  pub shell_words : Text → Option (List Text)
  pub is_absolute : Text → Bool
  pub has_parent_dir : Text → Bool

abbrev pub Verdict : Type 0 → Type 0
Verdict A = PolicyError ⊎ A
