-- ===== src/Dispatch/Approvals.antt =====
-- The ends of `request_permissions`, and `get_approval_status`, in src-tauri/src/tools/dispatch.rs.
use Prim.Native.String.{◌++◌}
use gpt_tools_mcp.Prelude.{
  String, Bool, true, false, [], ◌∷◌, Option, none, some, inl, inr, if◌then◌else◌,
}
use gpt_tools_mcp.Json.{Value, bool, string, object, end}
use gpt_tools_mcp.Answer.{
  WorkspaceError, ToolResult, tool_details, invalid_argument, json, tool_ok, error_value,
}
use gpt_tools_mcp.Approval.{
  ApprovalStatus, ApprovalDecision, pending, approved, denied, expired, consumed, launch_failed,
  invalidated,
}
use gpt_tools_mcp.Approval.Store.{
  ApprovalStore, ApprovalError, Result, ok, err, request_with_details, status,
}
use gpt_tools_mcp.Permission
use gpt_tools_mcp.Permission.{host_access}
use gpt_tools_mcp.Policy.Assess.{auto_approves_permissions}
use gpt_tools_mcp.Dispatch.{Setup, Call, World, text_of, approval_scope}
use gpt_tools_mcp.Dispatch.Codes.{approval_required, approval_code}
use gpt_tools_mcp.Dispatch.Gate.{request_of, put}
use gpt_tools_mcp.Dispatch.Permissions.{Checked, PermissionRequest, check_request}

-- The answer of the automatic policy.
unfoldable pub granted_answer : Setup → Value
unfolding json tool_ok host_access
granted_answer t = tool_ok (
    json (
      ("ok", bool true)
      ∷ ("status", string "granted")
      ∷ ("mode", string (Permission.as_str t.policy.permissions.preset))
      ∷ ("authority", string "configured_workspace_policy")
      ∷ ("desktop_approval_required", bool false)
      ∷ ("sandbox_bypass", bool (host_access t.policy.permissions))
      ∷ ("isolation_policy", t.texts.isolation_policy)
      ∷ ("fallback_allowed", t.texts.fallback_allowed)
      ∷ ("process_elevated", t.texts.process_elevated)
      ∷ ("workspace", string t.workspace_root)
      ∷ []))

abbrev unavailable : ApprovalError → WorkspaceError
unavailable e =
    tool_details "APPROVAL_UNAVAILABLE"
      ("Permission approval could not be created: " ++ approval_code e) "permission" true
      (json (("reason", string (approval_code e)) ∷ []))

abbrev requested :
    Setup → World → PermissionRequest → ApprovalStore × Result ApprovalStatus → World × ToolResult
requested t w q (store, ok s) =
    (put w store, inr (approval_required t w q.tool_name q.capabilities s))
requested t w q (store, err e) = (put w store, inl (unavailable e))

-- The end of `request_permissions`; `auto` is `auto_approves_permissions`.
unfoldable pub grant : Bool → Setup → Call → World → PermissionRequest → World × ToolResult
unfolding granted_answer request_of request_with_details
grant auto t c w q =
    if auto
    then (w, inr (granted_answer t))
    else requested t w q (
        request_with_details t.platform
          (request_of t c w q.tool_name q.args q.capabilities (text_of "client_request_id" c.args))
          w.approvals)

abbrev grant_checked : Setup → Call → World → Checked PermissionRequest → World × ToolResult
grant_checked t c w (inl e) = (w, inl e)
grant_checked t c w (inr q) = grant (auto_approves_permissions t.policy) t c w q

-- `request_permissions`.
unfoldable pub request_permissions : Setup → Call → World → World × ToolResult
unfolding check_request grant
request_permissions t c w = grant_checked t c w (check_request t c w)

-- The word of a decision, `rename_all = "snake_case"`.
abbrev decision_word : ApprovalDecision → String
decision_word pending = "pending"
decision_word approved = "approved"
decision_word denied = "denied"
decision_word expired = "expired"
decision_word consumed = "consumed"
decision_word launch_failed = "launch_failed"
decision_word invalidated = "invalidated"

abbrev status_answer : Setup → Option ApprovalStatus → Value
unfolding json error_value tool_ok
status_answer t none = json (
    ("ok", bool false)
    ∷ ("status", string "not_found")
    ∷ ("summary", string "审批不存在、已过期清理或不属于当前会话。")
    ∷ (
      "error",
      error_value "APPROVAL_NOT_FOUND" "Approval is not available for this conversation."
          "permission" false (object end),
    )
    ∷ [])
status_answer t (some s) = tool_ok (
    json (
      ("ok", bool true)
      ∷ ("status", string (decision_word s.decision))
      ∷ ("approval", t.texts.approval_status s)
      ∷ []))

abbrev status_of_id : Setup → Call → World → Option String → World × ToolResult
unfolding approval_scope status status_answer
status_of_id t c w none = (w, inl (invalid_argument "approval_id is required"))
status_of_id t c w (some id) =
    let found = status t.platform (approval_scope t c w).context id c.now c.later w.approvals in
    (put w found.0, inr (status_answer t found.1))

-- `get_approval_status`.
unfoldable pub get_approval_status : Setup → Call → World → World × ToolResult
unfolding text_of status_of_id
get_approval_status t c w = status_of_id t c w (text_of "approval_id" c.args)
