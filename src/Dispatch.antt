-- ===== src/Dispatch.antt =====
-- src-tauri/src/tools/dispatch.rs: the one entry of all tools. `Gate` decides whether a call needs an
-- approval, `Prepare` and `Run` are `call_tool_with_identity`, `Permissions` and `Approvals` the tools
-- on approvals, `Codes` the answers, `Summary` what the desktop is shown of a command.
pub mod Summary
pub mod Codes
pub mod Gate
pub mod Prepare
pub mod Record
pub mod Run
pub mod Passed
pub mod Kept
pub mod Writes
pub mod Log
pub mod Handover
pub mod Permissions
pub mod Approvals
mod Tests
pub mod Sample
use Prim.Native.String.{◌++◌}
use gpt_tools_mcp.Prelude.{
  ℕ, String, Bool, true, false, not, ◌&&◌, ◌||◌, List, [], ◌∷◌, map, Option, none, some, any,
  str_eq, if◌then◌else◌,
}
use gpt_tools_mcp.Prelude.Text.{trim, is_empty}
use gpt_tools_mcp.Json.{
  Value, Fields, null, bool, string, object, get_key, as_str, as_bool, or_default,
}
use gpt_tools_mcp.Answer.{WorkspaceError, json, assign_key}
use gpt_tools_mcp.Approval.{ApprovalScope, ApprovalStatus, Platform}
use gpt_tools_mcp.Approval.Store.{ApprovalStore, ApprovalError}
use gpt_tools_mcp.Context.{System, ErrorCode}
use gpt_tools_mcp.Context.Execution.{ExecutionContext, fingerprint}
use gpt_tools_mcp.Session.{Waited}
use gpt_tools_mcp.Session.Store.{SessionStore}
use gpt_tools_mcp.Harness.{TaskSession}
use gpt_tools_mcp.Harness.Store.{HarnessStore, HarnessResult, HarnessError, ok, err}
use gpt_tools_mcp.Harness.State.{Env, current_task}
use gpt_tools_mcp.Harness.Baseline.{HarnessStatus}
use gpt_tools_mcp.Harness.Operations.{OperationRecord}
use gpt_tools_mcp.Invocation.{remove_field}
use gpt_tools_mcp.Policy.{
  Text, PolicySettings, PolicyError, Matchers, CommandCapability, shell_syntax, dangerous_operation,
  network, unlisted_executable, custom_environment,
}

-- What a `ToolContext` changes: the sessions, the execution context, the approvals, and the files of
-- the harness with its log of operations.
pub record World : Type 0 where
  pub sessions : SessionStore
  pub execution : ExecutionContext
  pub approvals : ApprovalStore
  pub harness : HarnessStore
  pub operations : List OperationRecord

-- The texts and the JSON of data of other files: errors with their messages, derived `Serialize`,
-- what the sandbox says of itself, and how a path and a number are written.
pub record Texts : Type 0 where
  pub context_error : ErrorCode → WorkspaceError
  pub harness_code : HarnessError → String
  pub harness_message : HarnessError → String
  -- The message of a policy error without the code in front of it.
  pub policy_detail : PolicyError → String
  pub approval_status : ApprovalStatus → Value
  pub harness_status : HarnessStatus → Value
  pub permissions : String
  pub isolation_policy : Value
  pub fallback_allowed : Value
  pub process_elevated : Value
  pub relative_display : String → String → String
  pub decimal : ℕ → Text
  pub from_chars : Text → String

-- What no call changes: the policy, the mode of isolation, the tools that the profile exposes, and
-- the libraries.
pub record Setup : Type 0 where
  pub os : System
  pub platform : Platform
  pub matchers : Matchers
  pub local_entry : Text → Bool
  pub policy : PolicySettings
  pub isolation_mode : String
  pub workspace_root : String
  pub exposed : List String
  pub texts : Texts

-- The calls of the harness in the order in which a dispatch makes them.
pub data Moment : Type 0 where
  scoped found checked started logged refused finished refreshed closed : Moment

-- A call of a tool, with the clock, the UUID and what the file system answers while it runs.
pub record Call : Type 0 where
  pub name : String
  pub args : Value
  pub identity : Option String
  pub waited : String → Waited
  pub now : ℕ
  pub later : ℕ
  pub uuid : String
  pub epoch_seconds : ℕ
  pub at : Moment → Env

abbrev pub is_one_of : List String → String → Bool
is_one_of names s = any (λ n. str_eq n s) names

-- `requires_write_baseline`.
unfoldable pub requires_write_baseline : String → Value → Bool
unfolding get_key
requires_write_baseline name args =
    str_eq name "exec_command"
    || (str_eq name "apply_patch" && not (or_default false (as_bool (get_key "dry_run" args))))

-- `standalone_operation`.
unfoldable pub standalone_operation : String → Bool
standalone_operation = is_one_of ("patch_check" ∷ "apply_patch" ∷ "exec_command" ∷ [])

-- `should_log_operation`.
unfoldable pub should_log_operation : String → Bool
unfolding standalone_operation
should_log_operation name =
    standalone_operation name
    || is_one_of ("git_status" ∷ "git_diff" ∷ "git_log" ∷ "git_show" ∷ "git_blame" ∷ []) name

-- `args.get(key)`, trimmed, if it is a text that is not blank.
abbrev nonblank : Option String → Option String
unfolding trim is_empty
nonblank none = none
nonblank (some s) = if is_empty (trim s) then none else some (trim s)

unfoldable pub text_of : String → Value → Option String
unfolding get_key nonblank
text_of key args = nonblank (as_str (get_key key args))

-- `approval_effect_args`.
unfoldable pub approval_effect_args : Value → Value
unfolding remove_field
approval_effect_args (object fs) =
    object (remove_field "client_request_id" (remove_field "approval_id" fs))
approval_effect_args v = v

-- `capability_labels`, of one capability.
abbrev pub label : CommandCapability → String
label shell_syntax = "shell_syntax"
label dangerous_operation = "dangerous_operation"
label network = "network"
label unlisted_executable = "unlisted_executable"
label custom_environment = "custom_environment"

unfoldable pub capability_labels : List CommandCapability → List String
capability_labels = map label

abbrev is_given : Option Value → Bool
is_given none = false
is_given (some v) = true

-- The directory that `policy_arguments` fills in.
abbrev default_workdir : Setup → ExecutionContext → String
default_workdir t ctx =
    if str_eq ctx.default_cwd ctx.execution_root
    then "."
    else t.texts.relative_display ctx.execution_root ctx.default_cwd

-- `policy_arguments`; without a directory the arguments are indexed, which panics on a value that is
-- neither an object nor null.
unfoldable pub policy_arguments : Setup → String → Value → ExecutionContext → Option Value
unfolding get_key assign_key
policy_arguments t name args ctx =
    if not (str_eq name "exec_command")
      || (is_given (get_key "workdir" args) || is_given (get_key "cwd" args))
    then some args
    else assign_key "workdir" (string (default_workdir t ctx)) args

-- `operation_input`.
abbrev reason_of : Option Value → Value
reason_of none = null
reason_of (some v) = v

abbrev pub is_null : Value → Bool
is_null null = true
is_null _ = false

unfoldable pub operation_input : Value → Value
unfolding json get_key
operation_input args = json (
    ("arguments_present", bool (not (is_null args)))
    ∷ ("reason", reason_of (get_key "reason" args))
    ∷ [])

-- `current_task().ok().flatten()`: a list of tasks that cannot be read counts as no task.
abbrev pub task_or_none : HarnessResult (Option TaskSession) → Option TaskSession
task_or_none (err e) = none
task_or_none (ok task) = task

abbrev id_or_empty : Option TaskSession → String
id_or_empty none = ""
id_or_empty (some task) = task.id

abbrev context_of : Setup → ExecutionContext → Option String → String
unfolding nonblank fingerprint
context_of t ctx identity = or_default ("local:" ++ fingerprint t.os ctx) (nonblank identity)

-- `permission_revision` of src-tauri/src/tools/context.rs.
unfoldable pub permission_revision : Setup → ExecutionContext → String
unfolding fingerprint
permission_revision t ctx = fingerprint t.os ctx ++ (":" ++ t.texts.permissions)

-- `approval_scope`.
unfoldable pub approval_scope : Setup → Call → World → ApprovalScope
unfolding context_of current_task permission_revision
approval_scope t c w = record {
  context = context_of t w.execution c.identity;
  task = id_or_empty (task_or_none (current_task (c.at scoped).io w.harness));
  execution_root = w.execution.execution_root;
  policy_revision = permission_revision t w.execution;
}
