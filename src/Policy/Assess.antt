-- ===== src/Policy/Assess.antt =====
-- The assessment of a command and of a patch (src-tauri/src/tools/policy.rs).
use gpt_tools_mcp.Prelude.{
  ℕ, String, Bool, true, false, not, ◌&&◌, ◌||◌, ◌==◌, List, [], ◌∷◌, ◌++◌, Option, none, some, leb,
  str_eq, inl, inr, if◌then◌else◌,
}
use gpt_tools_mcp.Prelude.Text.{codes, trim, is_empty, contains_char, utf8_length}
use gpt_tools_mcp.Prelude.Result.{and_then, require, ok_or}
use gpt_tools_mcp.Json.{
  Value, Fields, end, field, object, get_key, as_str, as_bool, as_u64, or_default,
}
use gpt_tools_mcp.Permission.{host_access}
use gpt_tools_mcp.Policy.{
  Text, Verdict, PolicySettings, CommandCapability, shell_syntax, dangerous_operation, network,
  unlisted_executable, custom_environment, needs_command, too_long, isolation_unsatisfied,
  external_execution, workdir_outside, path_outside, protected_asset, network_not_allowed,
  invalid_syntax, empty_command, env_not_object, invalid_env, timeout_exceeded, not_approved,
  needs_patch, patch_too_large, Matchers,
}
use gpt_tools_mcp.Policy.Scan.{
  has_forbidden_shell_syntax, command_contains_external_path,
  command_targets_protected_repository_asset,
}
use gpt_tools_mcp.Policy.Words.{is_some, is_listed}

abbrev pub Capabilities : Type 0
Capabilities = List CommandCapability

abbrev is_nul : ℕ → Bool
is_nul c = c == 0

-- The command that `exec_command` is to run.
unfoldable pub command_of : Value → Verdict Text
unfolding get_key trim is_empty utf8_length
command_of args = and_then (ok_or needs_command (as_str (get_key "cmd" args))) (λ command.
    require (not (is_empty (trim command) || contains_char is_nul (codes command))) needs_command
      (require (leb (utf8_length (codes command)) 4000) too_long (inr (codes command))))

abbrev scope_word : Bool → String
scope_word true = "host"
scope_word false = "workspace"

-- The scope that the arguments ask for is the one of the policy.
unfoldable pub scope_matches : Bool → Value → Bool
unfolding get_key
scope_matches host args =
    str_eq (or_default (scope_word host) (as_str (get_key "filesystem_scope" args)))
      (scope_word host)

abbrev inside : Matchers → Option String → Bool
inside m none = true
inside m (some dir) = not (m.is_absolute (codes dir) || m.has_parent_dir (codes dir))

unfoldable pub workdir_inside : Matchers → Value → Bool
unfolding get_key
workdir_inside m args =
    inside m (as_str (get_key "workdir" args)) && inside m (as_str (get_key "cwd" args))

-- A capability, if it is needed.
abbrev pub when : Bool → CommandCapability → Capabilities
when true c = c ∷ []
when false c = []

unfoldable pub weigh_words : PolicySettings → (Text → Bool) → List Text → Verdict Capabilities
unfolding is_listed
weigh_words settings local_entry [] = inl empty_command
weigh_words settings local_entry (word ∷ words) =
    inr (when (not (is_listed settings local_entry word)) unlisted_executable)

unfoldable pub weigh_executable :
    Matchers → PolicySettings → (Text → Bool) → Text → Verdict Capabilities
unfolding weigh_words host_access
weigh_executable m settings local_entry command =
    if host_access settings.permissions
    then inr []
    else and_then (ok_or invalid_syntax (m.shell_words command)) (weigh_words settings local_entry)

abbrev has_nul : Option String → Bool
has_nul none = true
has_nul (some s) = contains_char is_nul (codes s)

unfoldable pub valid_env : Fields → Bool
unfolding is_empty
valid_env end = true
valid_env (field key value rest) =
    not (
      is_empty key
      || (contains_char (λ c. c == b'=' || c == 0) (codes key) || has_nul (as_str (some value))))
    && valid_env rest

unfoldable pub weigh_environment : Option Value → Verdict Capabilities
unfolding valid_env
weigh_environment none = inr []
weigh_environment (some (object env)) =
    require (valid_env env) invalid_env (inr (custom_environment ∷ []))
weigh_environment (some _) = inl env_not_object

abbrev is_none : {A : Type 0} → Option A → Bool
is_none o = not (is_some o)

-- A dangerous command is one to approve, unless a configuration of version 0 is told `confirm`.
unfoldable pub is_dangerous : Matchers → PolicySettings → Value → Text → Bool
unfolding get_key
is_dangerous m settings args command =
    m.dangerous_command command
    && (is_none settings.permissions.legacy
        || not (or_default false (as_bool (get_key "confirm" args))))

abbrev pub within_timeout : Option ℕ → Bool
within_timeout none = true
within_timeout (some ms) = leb ms 600000

-- What the hard checks of a command look at.
pub record Facts : Type 0 where
  pub host : Bool
  pub scope : Bool
  pub directory : Bool
  pub external : Bool
  pub shell : Bool
  pub protected : Bool
  pub dangerous : Bool
  pub mutation : Bool
  pub uses_network : Bool
  pub network_allowed : Bool

unfoldable pub facts_of : Matchers → Value → PolicySettings → Text → Facts
unfolding scope_matches workdir_inside host_access command_contains_external_path
    has_forbidden_shell_syntax command_targets_protected_repository_asset
facts_of m args settings command = record {
  host = host_access settings.permissions;
  scope = scope_matches (host_access settings.permissions) args;
  directory = workdir_inside m args;
  external = command_contains_external_path m command;
  shell = has_forbidden_shell_syntax command;
  protected = command_targets_protected_repository_asset command;
  dangerous = m.dangerous_command command;
  mutation = m.interpreter_mutation command;
  uses_network = m.network_command command;
  network_allowed = settings.permissions.network_allowed;
}

-- The hard checks, in their order.
unfoldable pub check_facts : Facts → Verdict Unit
check_facts f = require f.scope (if f.host then isolation_unsatisfied else external_execution) (
    require (f.host || f.directory) workdir_outside (
      require (f.host || not f.external) path_outside (
        require (not f.shell || (f.host || not f.protected)) protected_asset (
          require (f.host || not ((f.dangerous || f.mutation) && f.protected)) protected_asset (
            require (f.host || not (f.mutation && f.external)) path_outside
              (require (not f.uses_network || f.network_allowed) network_not_allowed (inr tt)))))))

-- The capabilities in the order in which they are pushed.
abbrev pub capabilities_of : Bool → Bool → Bool → Capabilities → Capabilities → Capabilities
capabilities_of shell dangerous uses_network unlisted env =
    when shell shell_syntax
    ++ when dangerous dangerous_operation
    ++ when uses_network network
    ++ unlisted
    ++ env

-- The capabilities of a command that has passed them.
unfoldable pub weigh :
    Matchers → (Text → Bool) → Value → PolicySettings → Text → Verdict Capabilities
unfolding has_forbidden_shell_syntax weigh_executable weigh_environment is_dangerous get_key
weigh m local_entry args settings command =
    and_then (weigh_executable m settings local_entry command) (λ unlisted.
      and_then (weigh_environment (get_key "env" args)) (λ env.
        require (within_timeout (as_u64 (get_key "timeout_ms" args))) timeout_exceeded (
          inr (
            capabilities_of (has_forbidden_shell_syntax command)
              (is_dangerous m settings args command) (m.network_command command) unlisted env))))

-- `assess_command_for_workspace`.
unfoldable pub assess_command_for_workspace :
    Matchers → (Text → Bool) → Value → PolicySettings → Verdict Capabilities
unfolding command_of facts_of check_facts weigh
assess_command_for_workspace m local_entry args settings = and_then (command_of args) (λ command.
    and_then (check_facts (facts_of m args settings command))
      (λ passed. weigh m local_entry args settings command))

-- `auto_approves_permissions`, which asks `auto_approves_soft_permissions` of permission.rs.
abbrev pub auto_approves_permissions : PolicySettings → Bool
auto_approves_permissions settings = true

abbrev first_refused : Capabilities → Verdict Unit
first_refused [] = inr tt
first_refused (c ∷ cs) = inl (not_approved c)

-- `validate_command_for_workspace`.
unfoldable pub validate_command_for_workspace :
    Matchers → (Text → Bool) → Value → PolicySettings → Verdict Unit
unfolding assess_command_for_workspace
validate_command_for_workspace m local_entry args settings =
    and_then (assess_command_for_workspace m local_entry args settings) (λ capabilities.
      if auto_approves_permissions settings then inr tt else first_refused capabilities)

-- `validate_patch`.
unfoldable pub validate_patch : Value → PolicySettings → Verdict Unit
unfolding get_key trim is_empty utf8_length
validate_patch args settings =
    and_then (ok_or needs_patch (as_str (get_key "patch" args))) (λ patch.
      require (not (is_empty (trim patch))) needs_patch (
        require (leb (utf8_length (codes patch)) settings.max_patch_bytes) patch_too_large
          (inr tt)))

-- `validate_tool_arguments_for_workspace`.
unfoldable pub validate_tool_arguments_for_workspace :
    Matchers → (Text → Bool) → String → Value → PolicySettings → Verdict Unit
unfolding validate_command_for_workspace validate_patch
validate_tool_arguments_for_workspace m local_entry tool args settings =
    if str_eq tool "exec_command"
    then validate_command_for_workspace m local_entry args settings
    else if str_eq tool "apply_patch" || str_eq tool "patch_check"
    then validate_patch args settings
    else inr tt
