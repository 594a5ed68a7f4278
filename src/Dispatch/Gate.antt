-- ===== src/Dispatch/Gate.antt =====
-- The approval of a call: the first half of `call_tool_with_identity` in
-- src-tauri/src/tools/dispatch.rs.
use gpt_tools_mcp.Prelude.{
  String, Bool, true, false, not, ◌&&◌, List, [], ◌∷◌, Option, none, some, str_eq, inl, inr,
  if◌then◌else◌,
}
use gpt_tools_mcp.Prelude.Text.{codes}
use gpt_tools_mcp.Json.{Value, get_key, as_str}
use gpt_tools_mcp.Approval.{ApprovalScope, ApprovalStatus}
use gpt_tools_mcp.Approval.Store.{ApprovalStore, Result, Request, ok, err, request_with_details}
use gpt_tools_mcp.Approval.Decide.{consume}
use gpt_tools_mcp.Policy.{Text, Verdict}
use gpt_tools_mcp.Policy.Assess.{
  Capabilities, assess_command_for_workspace, validate_tool_arguments_for_workspace,
}
use gpt_tools_mcp.Dispatch.{
  Setup, Call, World, text_of, approval_scope, approval_effect_args, capability_labels,
}
use gpt_tools_mcp.Dispatch.Codes.{approval_decision_error, approval_required}
use gpt_tools_mcp.Dispatch.Summary.{summary_of_words}

abbrev no_capabilities : Verdict Unit → Verdict Capabilities
no_capabilities (inl e) = inl e
no_capabilities (inr tt) = inr []

-- The capabilities that a call needs, if the policy lets it through.
unfoldable pub soft_capabilities : Setup → String → Value → Verdict Capabilities
unfolding assess_command_for_workspace validate_tool_arguments_for_workspace
soft_capabilities t name args =
    if str_eq name "exec_command"
    then assess_command_for_workspace t.matchers t.local_entry args t.policy
    else no_capabilities
        (validate_tool_arguments_for_workspace t.matchers t.local_entry name args t.policy)

-- An approval that a dispatch has consumed: its id, the scope and the arguments.
abbrev pub Consumed : Type 0
Consumed = String × ApprovalScope × Value

pub data Passage : Type 0 where
  passes : Option Consumed → Passage
  stops : Value → Passage

abbrev words_of : Setup → Option String → Option (List Text)
words_of t none = none
words_of t (some command) = t.matchers.shell_words (codes command)

-- `safe_operation_summary`.
unfoldable pub safe_operation_summary : Setup → String → Value → String
unfolding summary_of_words get_key
safe_operation_summary t name args =
    if not (str_eq name "exec_command")
    then name
    else t.texts.from_chars
        (summary_of_words t.texts.decimal (words_of t (as_str (get_key "cmd" args))))

-- The request that is put before the desktop.
unfoldable pub request_of :
    Setup → Call → World → String → Value → Capabilities → Option String → Request
unfolding approval_scope approval_effect_args capability_labels safe_operation_summary
request_of t c w name args capabilities request_id = record {
  scope = approval_scope t c w;
  tool = name;
  args = approval_effect_args args;
  request_id = request_id;
  capabilities = capability_labels capabilities;
  operation_summary = safe_operation_summary t name args;
  isolation = t.isolation_mode;
  now = c.now;
  uuid = c.uuid;
  epoch_seconds = c.epoch_seconds;
}

abbrev pub put : World → ApprovalStore → World
put w store = record w { approvals = store }

abbrev consumed_or_error : Consumed → World → ApprovalStore × Result (Unit {0}) → World × Passage
consumed_or_error used w (store, ok tt) = (put w store, passes (some used))
consumed_or_error used w (store, err e) = (put w store, stops (approval_decision_error e))

-- A call that names an approval consumes it.
unfoldable pub consume_given : Setup → Call → World → Value → String → World × Passage
unfolding approval_scope approval_effect_args consume
consume_given t c w args id =
    let scope = approval_scope t c w in
    let effect = approval_effect_args args in
    consumed_or_error (id, scope, effect) w
      (consume t.platform id scope c.name effect c.now c.later w.approvals)

abbrev required_or_error :
    Setup → Call → World → Capabilities → ApprovalStore × Result ApprovalStatus → World × Passage
required_or_error t c w capabilities (store, ok status) =
    (put w store, stops (approval_required t w c.name capabilities status))
required_or_error t c w capabilities (store, err e) =
    (put w store, stops (approval_decision_error e))

-- A call that names none asks for one.
unfoldable pub ask : Setup → Call → World → Value → Capabilities → World × Passage
unfolding request_of request_with_details text_of
ask t c w args capabilities = required_or_error t c w capabilities (
    request_with_details t.platform
      (request_of t c w c.name args capabilities (text_of "client_request_id" c.args)) w.approvals)

abbrev pub is_nil : Capabilities → Bool
is_nil [] = true
is_nil (c ∷ cs) = false

abbrev consume_or_ask :
    Setup → Call → World → Value → Capabilities → Option String → World × Passage
consume_or_ask t c w args capabilities (some id) = consume_given t c w args id
consume_or_ask t c w args capabilities none = ask t c w args capabilities

-- The gate; `auto` is `auto_approves_permissions`, `args` are the arguments of the policy.
unfoldable pub gate : Bool → Setup → Call → World → Value → Capabilities → World × Passage
unfolding consume_given ask text_of
gate auto t c w args capabilities =
    if not (is_nil capabilities) && not auto
    then consume_or_ask t c w args capabilities (text_of "approval_id" c.args)
    else (w, passes none)
