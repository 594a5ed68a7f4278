-- ===== src/Exec/Program.antt =====
-- The program of a command: `parse_and_resolve`, `resolve_program` and `shell_launch` of
-- src-tauri/src/tools/exec.rs.
use Prim.Native.String.{◌++◌}
use gpt_tools_mcp.Prelude.{
  ℕ, String, Bool, true, false, not, ◌&&◌, ◌||◌, ◌==◌, List, [], ◌∷◌, map, Option, none, some, ◌⊎◌,
  inl, inr, if◌then◌else◌,
}
use gpt_tools_mcp.Prelude.Text.{codes, ascii_lower, contains_char, trim, is_empty}
use gpt_tools_mcp.Prelude.Result.{require, ok_or}
use gpt_tools_mcp.Json.{or_default}
use gpt_tools_mcp.Answer.{WorkspaceError, tool, invalid_argument}
use gpt_tools_mcp.Context.{ContextResult, command_cwd}
use gpt_tools_mcp.Context.Execution.{ExecutionContext}
use gpt_tools_mcp.Context.Validate.{validate_resolved_path}
use gpt_tools_mcp.Policy.{Text, PolicySettings}
use gpt_tools_mcp.Policy.Settings.{has_word}
use gpt_tools_mcp.Policy.Scan.{has_forbidden_shell_syntax}
use gpt_tools_mcp.Policy.Assess.{auto_approves_permissions}
use gpt_tools_mcp.Dispatch.{Setup}
use gpt_tools_mcp.Exec.{LaunchPlan, Runner}

-- `shell_launch`, on Windows and elsewhere.
unfoldable pub shell_launch : Setup → Runner → String → LaunchPlan
shell_launch t r command =
    if t.os.windows
    then record {
      program = or_default "C:\\Windows\\System32\\cmd.exe" (r.which "cmd.exe");
      args = "/d" ∷ "/s" ∷ "/c" ∷ command ∷ [];
    }
    else record { program = or_default "/bin/sh" (r.which "sh"); args = "-c" ∷ command ∷ [] }

abbrev pub command_rejected : String → String → WorkspaceError
command_rejected message category = tool "COMMAND_REJECTED" message category false

-- The extension of a file in lower case with its dot, or no text.
abbrev dotted_extension : Option String → Text
dotted_extension none = []
dotted_extension (some e) = b'.' ∷ map ascii_lower (codes e)

abbrev is_nil : Text → Bool
is_nil [] = true
is_nil (c ∷ s) = false

-- Whether a policy lets a file of the workspace run.
unfoldable pub runs_local_entry : PolicySettings → Text → Bool
unfolding has_word
runs_local_entry policy extension =
    policy.workspace_local_entries
    && (auto_approves_permissions policy
        || (is_nil extension || has_word extension policy.workspace_script_extensions))

-- A local file after the check of its path.
unfoldable pub local_program :
    Setup
    → Runner
    → String
    → String
    → ContextResult String × ExecutionContext
    → (WorkspaceError ⊎ String) × ExecutionContext
unfolding runs_local_entry
local_program t r name resolved (inl e, ctx) = (
  inl (tool "EXECUTABLE_OUTSIDE_WORKSPACE" ("Workspace 外可执行文件被拒绝: " ++ name) "security" false),
  ctx,
)
local_program t r name resolved (inr path, ctx) = (
  require (runs_local_entry t.policy (dotted_extension (r.extension resolved)))
      (command_rejected ("Workspace 本地入口未获允许: " ++ name) "policy") (inr resolved),
  ctx,
)

unfoldable pub canonical_program :
    Setup
    → Runner
    → String
    → ExecutionContext
    → Option String
    → (WorkspaceError ⊎ String) × ExecutionContext
unfolding local_program validate_resolved_path
canonical_program t r name ctx none =
    (inl (command_rejected ("Program not found: " ++ name) "runtime"), ctx)
canonical_program t r name ctx (some resolved) =
    local_program t r name resolved (validate_resolved_path t.os resolved command_cwd ctx)

abbrev pub is_separator : ℕ → Bool
is_separator c = c == b'/' || c == b'\\'

-- A program that is no local file is looked for on PATH, if it has no separators.
unfoldable pub path_program : Runner → String → WorkspaceError ⊎ String
path_program r name =
    require (not (contains_char is_separator (codes name)))
      (command_rejected ("Program not found: " ++ name) "runtime")
      (ok_or (command_rejected ("Program not found on PATH: " ++ name) "runtime") (r.which name))

-- `resolve_program`, with the context that the check of the path has left.
unfoldable pub resolve_program :
    Setup
    → Runner
    → ExecutionContext
    → String
    → String
    → (WorkspaceError ⊎ String) × ExecutionContext
unfolding canonical_program path_program trim is_empty
resolve_program t r ctx cwd raw =
    let name = trim raw in
    let candidate = if t.os.is_absolute name then name else t.os.join cwd name in
    if is_empty name
    then (inl (invalid_argument "Empty program"), ctx)
    else if r.is_file candidate
    then canonical_program t r name ctx (t.os.canonicalize candidate)
    else (path_program r name, ctx)

abbrev pub plan_of :
    List String
    → (WorkspaceError ⊎ String) × ExecutionContext
    → (WorkspaceError ⊎ LaunchPlan) × ExecutionContext
plan_of args (inl e, ctx) = (inl e, ctx)
plan_of args (inr program, ctx) = (inr (record { program = program; args = args }), ctx)

unfoldable pub plan_of_words :
    Setup
    → Runner
    → ExecutionContext
    → String
    → Option (List Text)
    → (WorkspaceError ⊎ LaunchPlan) × ExecutionContext
unfolding resolve_program
plan_of_words t r ctx cwd none = (inl (invalid_argument "Invalid command syntax"), ctx)
plan_of_words t r ctx cwd (some []) = (inl (invalid_argument "Empty command"), ctx)
plan_of_words t r ctx cwd (some (word ∷ words)) =
    plan_of (map t.texts.from_chars words) (resolve_program t r ctx cwd (t.texts.from_chars word))

-- `parse_and_resolve`.
unfoldable pub parse_and_resolve :
    Setup
    → Runner
    → ExecutionContext
    → String
    → String
    → (WorkspaceError ⊎ LaunchPlan) × ExecutionContext
unfolding has_forbidden_shell_syntax shell_launch plan_of_words
parse_and_resolve t r ctx cwd cmd =
    if has_forbidden_shell_syntax (codes cmd)
    then (inr (shell_launch t r cmd), ctx)
    else plan_of_words t r ctx cwd (t.matchers.shell_words (codes cmd))
