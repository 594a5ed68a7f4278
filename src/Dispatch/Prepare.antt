-- ===== src/Dispatch/Prepare.antt =====
-- The first part of `call_tool_with_identity` in src-tauri/src/tools/dispatch.rs: all that happens
-- before a tool is chosen.
use gpt_tools_mcp.Prelude.{Option, none, some, str_eq, inl, inr, ◌⊎◌, if◌then◌else◌}
use gpt_tools_mcp.Json.{Value}
use gpt_tools_mcp.Answer.{tool_err}
use gpt_tools_mcp.Context.{ContextResult}
use gpt_tools_mcp.Context.Execution.{ExecutionContext, fingerprint}
use gpt_tools_mcp.Context.Validate.{validate}
use gpt_tools_mcp.Session.Store.{refresh_host_completions}
use gpt_tools_mcp.Permission.{host_access}
use gpt_tools_mcp.Policy.{Verdict}
use gpt_tools_mcp.Policy.Assess.{Capabilities, auto_approves_permissions}
use gpt_tools_mcp.Invocation.{AuthorizedInvocation, Caller}
use gpt_tools_mcp.Invocation
use gpt_tools_mcp.Dispatch.{Setup, Call, World, policy_arguments, permission_revision}
use gpt_tools_mcp.Dispatch.Codes.{policy_message, policy_tool_err}
use gpt_tools_mcp.Dispatch.Gate.{Consumed, Passage, passes, stops, soft_capabilities, gate}

-- A panic is a value: the thread of the request ends.
pub data Outcome : Type 0 where
  answers : Value → Outcome
  panics : Outcome

-- What the second part of a call gets.
pub record Ready : Type 0 where
  pub consumed : Option Consumed
  pub invocation : Option AuthorizedInvocation

-- What `AuthorizedInvocation` reads of a call.
unfoldable pub caller_of : Setup → Call → World → Caller
unfolding permission_revision fingerprint
caller_of t c w = record {
  execution_fingerprint = fingerprint t.os w.execution;
  permission_revision = permission_revision t w.execution;
  tool = c.name;
  args = c.args;
}

unfoldable pub ready : Setup → Call → World → Option Consumed → Ready
unfolding caller_of
ready t c w consumed = record {
  consumed = consumed;
  invocation =
      if str_eq c.name "exec_command" then some (Invocation.new (caller_of t c w)) else none;
}

abbrev pub passed : Setup → Call → World × Passage → World × (Outcome ⊎ Ready)
passed t c (w, passes consumed) = (w, inr (ready t c w consumed))
passed t c (w, stops answer) = (w, inl (answers answer))

abbrev pub at_gate : Setup → Call → World → Value → Verdict Capabilities → World × (Outcome ⊎ Ready)
at_gate t c w args (inl e) = (w, inl (answers (policy_tool_err (policy_message t.texts e))))
at_gate t c w args (inr capabilities) =
    passed t c (gate (auto_approves_permissions t.policy) t c w args capabilities)

abbrev pub assessed : Setup → Call → World → Option Value → World × (Outcome ⊎ Ready)
assessed t c w none = (w, inl panics)
assessed t c w (some args) = at_gate t c w args (soft_capabilities t c.name args)

abbrev pub entered :
    Setup → Call → World → ContextResult ExecutionContext → World × (Outcome ⊎ Ready)
entered t c w (inl e) = (w, inl (answers (tool_err (t.texts.context_error e))))
entered t c w (inr now) =
    assessed t c (record w { execution = now }) (policy_arguments t c.name c.args now)

-- With host access the sessions whose process has ended are marked first.
unfoldable pub refreshed_sessions : Setup → Call → World → World
unfolding refresh_host_completions
refreshed_sessions t c w =
    if host_access t.policy.permissions
    then record w { sessions = refresh_host_completions c.waited w.sessions }
    else w

unfoldable pub prepare : Setup → Call → World → World × (Outcome ⊎ Ready)
prepare t c w = entered t c (refreshed_sessions t c w) (validate t.os w.execution)
