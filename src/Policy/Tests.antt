-- ===== src/Policy/Tests.antt =====
-- Commands under a concrete policy.
use gpt_tools_mcp.Prelude.{◌≡◌, ◌↔◌, ◌⊎◌, refl, Any, Bool, true, false, [], ◌∷◌, none, some, inr}
use gpt_tools_mcp.Prelude.Text.{codes}
use gpt_tools_mcp.Json.{Value, string, object, field, end}
use gpt_tools_mcp.Permission.{policy, strict, default}
use gpt_tools_mcp.Policy.{Text, PolicySettings, shell_syntax, custom_environment, Matchers}
use gpt_tools_mcp.Policy.Settings.{
  default_allowed_command_set, default_workspace_script_extension_set,
  parse_workspace_script_extensions,
}
use gpt_tools_mcp.Policy.Scan.{has_forbidden_shell_syntax, command_contains_external_path}
use gpt_tools_mcp.Policy.Quotes.{HasOperator, has_forbidden_shell_syntax_iff}
use gpt_tools_mcp.Policy.Assess.{Capabilities, assess_command_for_workspace}

abbrev pub matchers : Matchers
matchers = record {
  network_command = λ t. false;
  dangerous_command = λ t. false;
  interpreter_mutation = λ t. false;
  rooted_argument = λ t. false;
  drive_argument = λ t. false;
  shell_words = λ t. some (codes "make" ∷ codes "all" ∷ []);
  is_absolute = λ t. false;
  has_parent_dir = λ t. false;
}

abbrev pub settings : PolicySettings
settings = record {
  allowed_commands = default_allowed_command_set;
  workspace_local_entries = true;
  workspace_script_extensions = default_workspace_script_extension_set;
  max_patch_bytes = 200000;
  permissions = policy strict default true none;
}

abbrev pub nowhere : Text → Bool
nowhere executable = false

abbrev pub args : Value
args = object (field "cmd" (string "make all; ls") (field "env" (object end) end))

abbrev pub asked : Capabilities
asked = shell_syntax ∷ custom_environment ∷ []

pub assesses : assess_command_for_workspace matchers nowhere args settings ≡ inr asked
unfolding assess_command_for_workspace
assesses = refl

quoted_is_no_operator : has_forbidden_shell_syntax (codes "echo 'a; b' \"c | d\" e\\;f") ≡ false
unfolding has_forbidden_shell_syntax
quoted_is_no_operator = refl

expansion : has_forbidden_shell_syntax (codes "echo $(id)") ≡ true
unfolding has_forbidden_shell_syntax
expansion = refl

-- The parent directory passes without a slash after it.
parent_passes : command_contains_external_path matchers (codes "find ..") ≡ false
unfolding command_contains_external_path
parent_passes = refl

parent_is_caught : command_contains_external_path matchers (codes "find ../x") ≡ true
unfolding command_contains_external_path
parent_is_caught = refl

reads_extensions : parse_workspace_script_extensions " .SH, py ,," ≡ codes ".sh" ∷ codes ".py" ∷ []
unfolding parse_workspace_script_extensions
reads_extensions = refl

has_forbidden_shell_syntax_iff_example :
    (has_forbidden_shell_syntax (codes "a && b") ≡ true)
    ↔ (Any (λ c. (c ≡ b'\r') ⊎ (c ≡ b'\n')) (codes "a && b") ⊎ HasOperator (codes "a && b"))
has_forbidden_shell_syntax_iff_example = has_forbidden_shell_syntax_iff (codes "a && b")
