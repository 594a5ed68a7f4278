-- ===== src/Policy/Settings.antt =====
-- The settings of the command policy (src-tauri/src/tools/policy.rs).
use gpt_tools_mcp.Prelude.{
  ℕ, String, Bool, not, List, [], ◌∷◌, ◌++◌, map, retain, any, if◌then◌else◌,
}
use gpt_tools_mcp.Prelude.Text.{codes, codes_eq, ascii_lower, trim, is_empty, split, starts_with}
use gpt_tools_mcp.Permission.{ExecutionPolicy, IsolationPolicy, from_config, Result, ok, err}
use gpt_tools_mcp.Policy.{Text, PolicySettings}

-- A word of a set of words.
unfoldable pub has_word : Text → List Text → Bool
unfolding codes_eq
has_word w = any (λ v. codes_eq v w)

-- `BASIC_READ_ONLY_COMMANDS`.
abbrev pub basic_read_only_commands : List Text
basic_read_only_commands =
    map codes
      ("pwd" ∷ "ls" ∷ "dir" ∷ "cat" ∷ "head" ∷ "tail" ∷ "grep" ∷ "find" ∷ "which" ∷ "echo" ∷ [])

-- `DEFAULT_ALLOWED_COMMANDS`.
abbrev pub default_allowed_commands : List Text
default_allowed_commands = map codes (
    "pytest" ∷ "python" ∷ "python3" ∷ "npm" ∷ "npx" ∷ "node" ∷ "pnpm" ∷ "yarn" ∷ "make" ∷ "mvn"
    ∷ "mvnw" ∷ "gradle" ∷ "gradlew" ∷ "cargo" ∷ "go" ∷ "ruff" ∷ "mypy" ∷ "eslint" ∷ "tsc"
    ∷ "msbuild" ∷ "dotnet" ∷ "deno" ∷ "bun" ∷ "ruby" ∷ "java" ∷ "javac" ∷ "cmake" ∷ "clang" ∷ "gcc"
    ∷ "g++" ∷ "git" ∷ "cmd" ∷ "powershell" ∷ "pwsh" ∷ [])

-- `split(',').map(str::trim).filter(|s| !s.is_empty())`.
unfoldable pub comma_list : String → List String
unfolding split trim is_empty
comma_list configured = retain (λ s. not (is_empty s)) (map trim (split b',' configured))

-- `default_allowed_command_set`.
abbrev pub default_allowed_command_set : List Text
default_allowed_command_set = default_allowed_commands ++ basic_read_only_commands

-- `parse_allowed_commands`.
unfoldable pub parse_allowed_commands : String → List Text
unfolding trim is_empty comma_list
parse_allowed_commands configured =
    let trimmed = trim configured in
    if is_empty trimmed
    then default_allowed_command_set
    else map codes (comma_list trimmed) ++ basic_read_only_commands

-- `merge_default_allowed_commands`.
unfoldable pub merge_default_allowed_commands : String → List Text
unfolding parse_allowed_commands
merge_default_allowed_commands configured =
    default_allowed_command_set ++ parse_allowed_commands configured

-- `default_workspace_script_extension_set`.
abbrev pub default_workspace_script_extension_set : List Text
default_workspace_script_extension_set = map codes (".exe" ∷ ".bat" ∷ ".cmd" ∷ ".ps1" ∷ [])

-- A configured extension, in lower case and with its dot.
unfoldable pub extension_of : Text → Text
unfolding starts_with
extension_of value =
    if starts_with (b'.' ∷ []) value then map ascii_lower value else b'.' ∷ map ascii_lower value

abbrev or_defaults : List Text → List Text
or_defaults [] = default_workspace_script_extension_set
or_defaults (e ∷ es) = e ∷ es

-- `parse_workspace_script_extensions`.
unfoldable pub parse_workspace_script_extensions : String → List Text
unfolding comma_list extension_of
parse_workspace_script_extensions configured =
    or_defaults (map (λ s. extension_of (codes s)) (comma_list configured))

abbrev with_permissions :
    List Text → Bool → List Text → ℕ → Result ExecutionPolicy → Result PolicySettings
with_permissions commands entries extensions max_patch_bytes (err e) = err e
with_permissions commands entries extensions max_patch_bytes (ok permissions) = ok (record {
  allowed_commands = commands;
  workspace_local_entries = entries;
  workspace_script_extensions = extensions;
  max_patch_bytes = max_patch_bytes;
  permissions = permissions;
})

-- The fields of a workspace's configuration that the policy reads.
pub record RuntimeConfig : Type 0 where
  pub allowed_commands : String
  pub workspace_local_entries : Bool
  pub workspace_script_extensions : String
  pub permission_mode : String
  pub permission_policy_version : ℕ
  pub isolation_policy : IsolationPolicy

-- `PolicySettings::from_runtime`.
unfoldable pub from_runtime : RuntimeConfig → Result PolicySettings
unfolding merge_default_allowed_commands parse_workspace_script_extensions from_config
from_runtime runtime =
    with_permissions (merge_default_allowed_commands runtime.allowed_commands)
      runtime.workspace_local_entries
      (parse_workspace_script_extensions runtime.workspace_script_extensions) 200000
      (from_config runtime.permission_mode runtime.permission_policy_version
        runtime.isolation_policy)
