-- ===== src/Dispatch/Permissions.antt =====
-- The checks of the tool `request_permissions` in src-tauri/src/tools/dispatch.rs; its ends are in
-- Approvals.
pub mod Asked
use Prim.Native.String.{◌++◌}
use gpt_tools_mcp.Prelude.{
  ℕ, String, Bool, true, false, not, ◌&&◌, ◌||◌, ◌==◌, List, [], ◌∷◌, Option, none, some, any,
  str_eq, inl, inr, ◌⊎◌, if◌then◌else◌,
}
use gpt_tools_mcp.Prelude.Text.{strip_prefix}
use gpt_tools_mcp.Prelude.Result.{and_then, require, ok_or}
use gpt_tools_mcp.Json.{Value, bool, string, object, end, get_key, as_str, as_u64}
use gpt_tools_mcp.Answer.{
  WorkspaceError, ToolResult, tool_details, invalid_argument, json, strings, tool_ok, error_value,
}
use gpt_tools_mcp.Approval.{
  ApprovalStatus, ApprovalDecision, pending, approved, denied, expired, consumed, launch_failed,
  invalidated,
}
use gpt_tools_mcp.Approval.Store.{
  ApprovalStore, ApprovalError, Result, ok, err, request_with_details, status,
}
use gpt_tools_mcp.Context.Execution.{ExecutionContext}
use gpt_tools_mcp.Permission
use gpt_tools_mcp.Permission.{host_access}
use gpt_tools_mcp.Policy.{CommandCapability, Verdict}
use gpt_tools_mcp.Policy.Assess.{
  Capabilities, assess_command_for_workspace, auto_approves_permissions,
}
use gpt_tools_mcp.Dispatch.{
  Setup, Call, World, text_of, approval_scope, capability_labels, policy_arguments,
}
use gpt_tools_mcp.Dispatch.Codes.{policy_message, approval_required, approval_code}
use gpt_tools_mcp.Dispatch.Gate.{request_of, put}

-- The result of a check of arguments.
abbrev pub Checked : Type 0 → Type 0
Checked A = WorkspaceError ⊎ A

abbrev starts : String → String → Bool
unfolding strip_prefix
starts prefix s = elim (strip_prefix prefix s) [ none ↦ false | some rest ↦ true ]

-- `policy_tool_err_to_workspace_error`.
unfoldable pub policy_error : String → WorkspaceError
unfolding starts json
policy_error message =
    tool_details
      (if starts "PROTECTED_REPOSITORY_ASSET:" message
        then "PROTECTED_REPOSITORY_ASSET"
        else if starts "NETWORK_NOT_ALLOWED:" message
        then "NETWORK_NOT_ALLOWED"
        else "POLICY_REJECTED")
      message "policy" false (json (("stage", string "permission_assessment") ∷ []))

-- The capability that a permission stands for.
abbrev pub capability_for : String → Option String
capability_for permission =
    if str_eq permission "network"
    then some "network"
    else if str_eq permission "destructive_command"
    then some "dangerous_operation"
    else if str_eq permission "shell_expansion" || str_eq permission "inline_script"
    then some "shell_syntax"
    else if str_eq permission "privileged_executable"
    then some "unlisted_executable"
    else if str_eq permission "sensitive_env"
    then some "custom_environment"
    else none

abbrev pub is_in : List String → Option String → Bool
is_in labels none = false
is_in labels (some l) = any (λ c. str_eq c l) labels

-- `capability_requested`.
unfoldable pub capability_requested : String → Capabilities → Bool
unfolding capability_labels
capability_requested permission capabilities =
    is_in (capability_labels capabilities) (capability_for permission)

-- `is_supported_permission`.
unfoldable pub is_supported_permission : String → Bool
is_supported_permission permission =
    str_eq permission "network"
    || (str_eq permission "destructive_command"
        || (str_eq permission "shell_expansion"
            || (str_eq permission "inline_script"
                || (str_eq permission "privileged_executable"
                    || str_eq permission "sensitive_env"))))

abbrev pub object_of : Option Value → Option Value
object_of (some (object fs)) = some (object fs)
object_of _ = none

abbrev is_once : Option String → Bool
is_once none = true
is_once (some scope) = str_eq scope "once"

abbrev is_ttl : Option ℕ → Bool
is_ttl none = true
is_ttl (some ttl) = ttl == 600

-- What is asked for: the tool, the permission, the arguments as the policy sees them, and the
-- capabilities that these need.
pub record PermissionRequest : Type 0 where
  pub tool_name : String
  pub permission : String
  pub args : Value
  pub capabilities : Capabilities

abbrev pub rejected : Setup → Verdict Capabilities → Checked Capabilities
rejected t (inl e) = inl (policy_error (policy_message t.texts e))
rejected t (inr capabilities) = inr capabilities

-- The capabilities of the operation; only commands are assessed.
unfoldable pub operation_capabilities : Setup → String → Value → Checked Capabilities
unfolding assess_command_for_workspace
operation_capabilities t tool_name args =
    if str_eq tool_name "exec_command"
    then rejected t (assess_command_for_workspace t.matchers t.local_entry args t.policy)
    else inl (invalid_argument "permission requests only support exec_command")

abbrev mismatch : String → Capabilities → WorkspaceError
mismatch permission capabilities =
    tool_details "PERMISSION_CAPABILITY_MISMATCH"
      "Requested permission is not present in the evaluated operation." "permission" false
      (json (
        ("requested_permission", string permission)
        ∷ ("capabilities", strings (capability_labels capabilities))
        ∷ []))

-- The checks of the operation.
unfoldable pub check_operation : Setup → String → String → Option Value → Checked PermissionRequest
unfolding operation_capabilities is_supported_permission capability_requested
check_operation t tool_name permission none = inl (invalid_argument "arguments must be an object")
check_operation t tool_name permission (some args) =
    and_then (operation_capabilities t tool_name args) (λ capabilities.
      require (is_supported_permission permission)
        (invalid_argument "permission is not a supported one-shot capability")
        (require (capability_requested permission capabilities) (mismatch permission capabilities) (
          inr (record {
            tool_name = tool_name;
            permission = permission;
            args = args;
            capabilities = capabilities;
          }))))

-- The checks of `request_permissions`, in their order.
unfoldable pub check_request : Setup → Call → World → Checked PermissionRequest
unfolding text_of get_key policy_arguments check_operation
check_request t c w =
    and_then (ok_or (invalid_argument "tool_name is required") (text_of "tool_name" c.args))
      (λ tool_name.
        and_then (ok_or (invalid_argument "permission is required") (text_of "permission" c.args))
          (λ permission.
            and_then
              (ok_or (invalid_argument "arguments must be an object")
                (object_of (get_key "arguments" c.args)))
              (λ arguments.
                require (is_once (as_str (get_key "scope" c.args)))
                  (invalid_argument "permission scope must be once")
                  (require (is_ttl (as_u64 (get_key "ttl_seconds" c.args)))
                    (invalid_argument "permission ttl_seconds is fixed at 600 seconds")
                    (check_operation t tool_name permission
                      (policy_arguments t tool_name arguments w.execution))))))
