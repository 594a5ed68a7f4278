-- ===== src/Dispatch/Codes.antt =====
-- The answers of src-tauri/src/tools/dispatch.rs to a refusal: of the policy, of the approval store,
-- and of a context that is no longer valid.
use Prim.Native.String.{◌++◌}
use gpt_tools_mcp.Prelude.{
  String, Bool, true, false, not, ◌||◌, List, [], ◌∷◌, Option, none, some, str_eq, if◌then◌else◌,
}
use gpt_tools_mcp.Prelude.Text.{codes, contains, strip_prefix}
use gpt_tools_mcp.Json.{Value, bool, string, object, end, get_key, as_str}
use gpt_tools_mcp.Answer.{tool_details, tool_err, json, strings, insert_key, error_value}
use gpt_tools_mcp.Approval.{ApprovalStatus}
use gpt_tools_mcp.Approval.Store.{
  ApprovalError, store_unavailable, request_conflict, queue_full, not_found, not_pending, required,
  not_consumed, was_invalidated, was_expired, was_denied, was_consumed, was_launch_failed,
}
use gpt_tools_mcp.Policy.{
  PolicyError, CommandCapability, isolation_unsatisfied, external_execution, path_outside,
  protected_asset, network_not_allowed, not_approved, dangerous_operation,
}
use gpt_tools_mcp.Dispatch.{Setup, Texts, World, capability_labels}

-- The code that a message of policy.rs starts with.
abbrev prefix_of : PolicyError → String
prefix_of isolation_unsatisfied = "ISOLATION_CAPABILITY_UNSATISFIED: "
prefix_of external_execution = "EXTERNAL_EXECUTION_NOT_ALLOWED: "
prefix_of path_outside = "WORKSPACE_PATH_PROTECTED: "
prefix_of protected_asset = "PROTECTED_REPOSITORY_ASSET: "
prefix_of network_not_allowed = "NETWORK_NOT_ALLOWED: "
prefix_of (not_approved dangerous_operation) = "DANGEROUS_OPERATION_REQUIRES_CONFIRMATION: "
prefix_of _ = ""

-- The text of a `PolicyError`.
unfoldable pub policy_message : Texts → PolicyError → String
policy_message t e = prefix_of e ++ t.policy_detail e

abbrev is_some : Option String → Bool
is_some none = false
is_some (some s) = true

abbrev or_else : Option String → Option String → Option String
or_else none b = b
or_else (some a) b = some a

abbrev or_text : String → Option String → String
or_text s none = s
or_text s (some t) = t

-- The code that `policy_tool_err` reads off a message.
unfoldable pub policy_code : String → String
unfolding strip_prefix
policy_code message =
    if is_some (strip_prefix "ISOLATION_CAPABILITY_UNSATISFIED:" message)
    then "ISOLATION_CAPABILITY_UNSATISFIED"
    else if is_some (strip_prefix "EXTERNAL_EXECUTION_NOT_ALLOWED:" message)
    then "EXTERNAL_EXECUTION_NOT_ALLOWED"
    else if is_some (strip_prefix "PROTECTED_REPOSITORY_ASSET: " message)
    then "PROTECTED_REPOSITORY_ASSET"
    else if is_some (strip_prefix "NETWORK_NOT_ALLOWED: " message)
    then "NETWORK_NOT_ALLOWED"
    else if is_some (strip_prefix "DANGEROUS_OPERATION_REQUIRES_CONFIRMATION: " message)
    then "DANGEROUS_OPERATION_REQUIRES_CONFIRMATION"
    else "POLICY_REJECTED"

-- The message without its code.
unfoldable pub shown_message : String → String
unfolding strip_prefix
shown_message message = or_text message (
    or_else (strip_prefix "PROTECTED_REPOSITORY_ASSET: " message) (
      or_else (strip_prefix "NETWORK_NOT_ALLOWED: " message)
        (strip_prefix "DANGEROUS_OPERATION_REQUIRES_CONFIRMATION: " message)))

unfoldable pub policy_reason : String → String
unfolding strip_prefix contains shown_message
policy_reason message =
    if is_some (strip_prefix "DANGEROUS_OPERATION_REQUIRES_CONFIRMATION: " message)
    then "confirmation_required"
    else if is_some (strip_prefix "NETWORK_NOT_ALLOWED: " message)
    then "network_disabled"
    else if contains (codes "allowlisted") (codes (shown_message message))
    then "command_rejected"
    else if contains (codes "Shell chaining") (codes (shown_message message))
    then "shell_syntax_rejected"
    else "policy_rejected"

abbrev policy_suggestion : String → String
policy_suggestion reason =
    if str_eq reason "confirmation_required"
    then "为危险操作补充 confirm=true，确认后再重试"
    else if str_eq reason "network_disabled"
    then "工作区网络策略已禁用该能力，桌面审批不能解除此硬限制"
    else if str_eq reason "command_rejected"
    then "改用允许的命令，或调整工作区命令白名单"
    else if str_eq reason "shell_syntax_rejected"
    then "移除未加引号的 shell 操作符；引号内的程序参数可以保留"
    else "根据错误信息修正参数后重试"

-- `policy_tool_err`, on the text of the error.
unfoldable pub policy_tool_err : String → Value
unfolding policy_code shown_message policy_reason tool_err json
policy_tool_err message =
    let reason = policy_reason message in
    tool_err (
      tool_details (policy_code message) (shown_message message) "policy" false (
        json (
          ("stage", string "policy")
          ∷ ("reason", string reason)
          ∷ (
            "recoverable",
            bool (not (str_eq reason "confirmation_required" || str_eq reason "network_disabled")),
          )
          ∷ ("suggestion", string (policy_suggestion reason))
          ∷ [])))

-- The code of an error of the approval store (src-tauri/src/security/approval.rs).
abbrev pub approval_code : ApprovalError → String
approval_code store_unavailable = "approval_store_unavailable"
approval_code request_conflict = "approval_request_conflict"
approval_code queue_full = "approval_queue_full"
approval_code not_found = "approval_not_found"
approval_code not_pending = "approval_not_pending"
approval_code required = "approval_required"
approval_code not_consumed = "approval_not_consumed"
approval_code was_invalidated = "approval_invalidated"
approval_code was_expired = "approval_expired"
approval_code was_denied = "approval_denied"
approval_code was_consumed = "approval_consumed"
approval_code was_launch_failed = "approval_launch_failed"

-- The status, the message and whether to retry, for an error of the store.
abbrev pub decision_answer : ApprovalError → String × String × Bool
decision_answer required = ("approval_required", "该操作尚未获得桌面批准。", true)
decision_answer was_expired = ("approval_expired", "该审批已过期，请重新发起请求。", true)
decision_answer was_denied = ("approval_denied", "该操作被用户拒绝。", false)
decision_answer was_consumed = ("approval_consumed", "该审批已经消费，不能重复执行。", false)
decision_answer was_launch_failed = ("launch_failed", "该审批对应的进程未能启动，请重新评估并申请一次新的审批。", true)
decision_answer was_invalidated = ("approval_invalidated", "审批绑定的工作区、策略或参数已变化。", true)
decision_answer request_conflict =
    ("approval_request_conflict", "client_request_id 已绑定到不同的操作。", false)
decision_answer queue_full = ("gateway_busy", "审批队列已满，请稍后重试。", true)
decision_answer _ = ("approval_unavailable", "审批状态暂时不可用。", true)

-- `approval_decision_error`.
unfoldable pub approval_decision_error : ApprovalError → Value
unfolding json error_value
approval_decision_error e =
    let (status, message, retryable) = decision_answer e in
    json (
      ("ok", bool false)
      ∷ ("status", string status)
      ∷ ("summary", string message)
      ∷ ("error", error_value (approval_code e) message "permission" retryable (object end))
      ∷ [])

-- `approval_required`.
unfoldable pub approval_required :
    Setup → World → String → List CommandCapability → ApprovalStatus → Value
unfolding json error_value insert_key capability_labels
approval_required t w name capabilities status =
    let message : String = "该操作需要桌面确认后才能执行。" in
    let details = json (
      ("status", string "approval_required")
      ∷ ("approval_id", string status.approval_id)
      ∷ ("approval", t.texts.approval_status status)
      ∷ ("tool", string name)
      ∷ ("capabilities", strings (capability_labels capabilities))
      ∷ ("workspace", string t.workspace_root)
      ∷ ("execution_root", string w.execution.execution_root)
      ∷ ("retryable", bool true)
      ∷ ("suggestion", string "在桌面批准后，使用相同参数重试；不要自动循环申请。")
      ∷ []) in
    insert_key "approval_id" (string status.approval_id) (
      json (
        ("ok", bool false)
        ∷ ("status", string "approval_required")
        ∷ ("summary", string message)
        ∷ ("error", error_value "PERMISSION_APPROVAL_REQUIRED" message "permission" true details)
        ∷ []))

abbrev get_in : String → Option Value → Option Value
unfolding get_key
get_in key none = none
get_in key (some v) = get_key key v

abbrev or_value : Option String → Option String → Option String
or_value none b = b
or_value (some a) b = some a

abbrev is_text : String → Option String → Bool
is_text s none = false
is_text s (some t) = str_eq t s

-- `launch_failed_output`.
unfoldable pub launch_failed_output : Value → Bool
unfolding get_key
launch_failed_output output =
    let error = get_key "error" output in
    let code = as_str (get_in "code" error) in
    let reason =
      or_value (as_str (get_key "termination_reason" output))
        (as_str (get_in "termination_reason" (get_in "details" error))) in
    is_text "COMMAND_REJECTED" code
    || (is_text "COMMAND_SPAWN_FAILED" code
        || (is_text "EXEC_SANDBOX_UNAVAILABLE" code
            || (is_text "EXEC_SANDBOX_INIT_FAILED" code
                || (is_text "GIT_RUNTIME_STAGING_FAILED" code
                    || (is_text "spawn_failed" (as_str (get_key "status" output))
                        || is_text "spawn_failed" reason)))))
