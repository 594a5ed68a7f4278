-- ===== src/Dispatch/Tests.antt =====
-- A command that is dispatched on a concrete workspace.
use gpt_tools_mcp.Prelude.{
  Bool, true, false, ◌≡◌, ◌≢◌, ◌↔◌, refl, sym, ap, ◌∙◌, List, [], ◌∷◌, none, some, inl, inr,
  if◌then◌else◌,
}
use gpt_tools_mcp.Prelude.Text.{codes}
use gpt_tools_mcp.Prelude.Assoc.{get, insert}
use gpt_tools_mcp.Json.{Value, null, string, bool, array, object, nil, field, end}
use gpt_tools_mcp.Answer.{invalid_argument, ToolResult, succeeded, failed, output_of}
use gpt_tools_mcp.Approval.{from_secs}
use gpt_tools_mcp.Approval.Store.{default, request_with_details, usable_id, cleanup_locked}
use gpt_tools_mcp.Approval.Decide.{consume, decide}
use gpt_tools_mcp.Approval.Fingerprint.{fingerprint_of}
use gpt_tools_mcp.Approval.Trace.{Op, requests, decides, run, step}
use gpt_tools_mcp.Approval.Tests.{platform}
use gpt_tools_mcp.Context.Tests.{linux, context}
use gpt_tools_mcp.Policy.Tests.{matchers, settings, args, asked}
use gpt_tools_mcp.Harness.Store.{HarnessResult, baseline_stale}
use gpt_tools_mcp.Harness.Baseline.{check_baseline}
use gpt_tools_mcp.Harness.Operations.{OperationRecord}
use gpt_tools_mcp.Harness.Tests.{begun, begun_task, begun_current, committed, task}
use gpt_tools_mcp.Context.Execution.{ExecutionContext, fingerprint}
use gpt_tools_mcp.Context.Validate.{validate}
use gpt_tools_mcp.Policy.{Text}
use gpt_tools_mcp.Policy.Assess.{command_of}
use gpt_tools_mcp.Policy.Limits.{IsWithinLimits}
use gpt_tools_mcp.Invocation.{AuthorizedInvocation, Reserved, new, reserve, effect_args}
use gpt_tools_mcp.Dispatch.{
  World, Call, text_of, approval_scope, policy_arguments, requires_write_baseline,
  should_log_operation,
}
use gpt_tools_mcp.Dispatch.Summary.{Shows, summary_of_words, summary_of_words-safe}
use gpt_tools_mcp.Dispatch.Gate.{Consumed, passes, gate, soft_capabilities}
use gpt_tools_mcp.Dispatch.Handover.{prepare-granted_iff}
use gpt_tools_mcp.Dispatch.Passed.{command-IsWithinLimits}
use gpt_tools_mcp.Dispatch.Kept.{call_tool-approvals}
use gpt_tools_mcp.Dispatch.Writes.{stale_write}
use gpt_tools_mcp.Dispatch.Log.{perform_write-log}
use gpt_tools_mcp.Dispatch.Prepare.{
  Outcome, answers, panics, Ready, prepare, refreshed_sessions, ready, caller_of,
}
use gpt_tools_mcp.Dispatch.Record.{
  baseline, log_started, mark_failed_launch, final_output, finish_task, log_finished,
}
use gpt_tools_mcp.Dispatch.Run.{Tools, call_tool, perform, conclude, perform_write}
use gpt_tools_mcp.Dispatch.Sample.{setup, world, call, named, scope}

scope_of_call : approval_scope setup (call named) world ≡ scope
unfolding approval_scope
scope_of_call = refl

abbrev granting : List Op
granting =
    requests (record {
      scope = scope;
      tool = "exec_command";
      args = null;
      request_id = none;
      capabilities = [];
      operation_summary = "";
      isolation = "strict";
      now = from_secs 5;
      uuid = "id-1";
      epoch_seconds = 100;
    })
    ∷ decides "id-1" true (from_secs 20) (from_secs 20) (from_secs 20)
    ∷ []

abbrev granted : World
granted = record world { approvals = run platform default granting }

abbrev used : Consumed
used = ("id-1", scope, args)

opens : (gate false setup (call named) granted named asked).1 ≡ passes (some used)
unfolding gate run step request_with_details usable_id decide consume cleanup_locked get insert
    fingerprint_of text_of
opens = refl

abbrev left : World
left = (gate false setup (call named) granted named asked).0

abbrev tools : ToolResult → Tools
tools result = record { harness = λ c w. (w, result); run = λ c i w. (w, result) }

abbrev done : ToolResult
done = inr (object (field "ok" (bool true) end))

abbrev broken : ToolResult
broken = inl (invalid_argument "broken")

abbrev is_success : Outcome → Bool
unfolding succeeded
is_success (answers v) = succeeded v
is_success panics = false

abbrev runs : ToolResult → World × Outcome
runs result = call_tool setup (tools result) (call args) world

-- What a test of a whole call computes with.
running : Unit {0}
unfolding call_tool prepare perform gate baseline conclude log_started mark_failed_launch
    final_output finish_task log_finished output_of succeeded failed validate policy_arguments
    soft_capabilities refreshed_sessions ready
running = tt

succeeds : is_success (runs done).1 ≡ true
unfolding running
succeeds = refl

fails : is_success (runs broken).1 ≡ false
unfolding running
fails = refl

differ : runs done ≢ runs broken
differ h = let same = sym succeeds ∙ ap (λ x. is_success x.1) h ∙ fails in cc

command-IsWithinLimits_example :
    (now : ExecutionContext) × (given : Value) × (command : Text) × (validate linux context
      ≡ inr now)
    × (policy_arguments setup "exec_command" args now ≡ some given)
    × (command_of given ≡ inr command)
    × IsWithinLimits matchers settings given command
command-IsWithinLimits_example =
    command-IsWithinLimits setup (tools done) (tools broken) (call args) world refl differ

call_tool-approvals_example : (runs done).0.approvals ≡ default
call_tool-approvals_example =
    call_tool-approvals setup (tools done) (call args) world (λ w. refl, λ i w. refl)

-- Arguments that are a list make the indexing of `policy_arguments` panic.
list_panics : (call_tool setup (tools done) (call (array nil)) world).1 ≡ panics
unfolding running
list_panics = refl

abbrev busy : World
busy = record world { harness = begun }

-- The workspace has moved on since the task began.
abbrev moved : Call
moved = record (call args) { at = λ m. committed }

stale : check_baseline committed "t1" begun ≡ HarnessResult.err baseline_stale
unfolding check_baseline
stale = rw begun_task refl

stale_write_example :
    (call_tool setup (tools done) moved busy ≡ call_tool setup (tools broken) moved busy)
    × ((call_tool setup (tools done) moved busy).0.harness ≡ begun)
    × ((call_tool setup (tools done) moved busy).0.operations ≡ [])
    × ((call_tool setup (tools done) moved busy).0.approvals ≡ default)
stale_write_example =
    stale_write setup (tools done) (tools broken) moved busy task baseline_stale
      (unfold requires_write_baseline in refl) begun_current stale

abbrev ready_call : Ready
ready_call = record { consumed = none; invocation = none }

perform_write-log_example :
    (output : Value) × (first : OperationRecord) × (last : OperationRecord) × ((perform_write setup
        (tools done)
        (call args)
        ready_call
        (world, inr none)).1
      ≡ answers output)
    × ((perform_write setup (tools done) (call args) ready_call (world, inr none)).0.operations
        ≡ first ∷ last ∷ [])
    × (first.id ≡ last.id)
    × (first.kind ≡ "started")
    × (last.kind ≡ (if succeeded output then "completed" else "failed"))
perform_write-log_example =
    perform_write-log setup (tools done) (call args) ready_call none world
      (unfold should_log_operation in refl) refl refl refl (λ v. refl)

abbrev handed : Ready
handed = record { consumed = none; invocation = some (new (caller_of setup (call args) world)) }

prepares : (prepare setup (call args) world).1 ≡ inr handed
unfolding running
prepares = refl

prepare-granted_iff_example :
    (i : AuthorizedInvocation) × (handed.invocation ≡ some i)
    × (((reserve i (caller_of setup (call named) granted)).1 ≡ Reserved.granted) ↔ (
        (fingerprint linux (prepare setup (call args) world).0.execution
          ≡ fingerprint linux context)
        × ((call args).name ≡ (call named).name)
        × (effect_args args ≡ effect_args named)))
prepare-granted_iff_example =
    prepare-granted_iff setup (call args) (call named) world granted handed refl prepares

abbrev permission_args : Value
permission_args = object (
    field "arguments" args (
      field "permission" (string "shell_expansion")
        (field "tool_name" (string "exec_command") end)))

abbrev asking : Call
asking = record (call permission_args) { name = "request_permissions" }

summary_of_words-safe_example :
    Shows
      (codes "/bin/cu$rl")
      (summary_of_words (λ n. codes "1") (some (codes "/bin/cu$rl" ∷ codes "token" ∷ [])))
      (codes "1")
summary_of_words-safe_example =
    summary_of_words-safe (λ n. codes "1") (codes "/bin/cu$rl") (codes "token" ∷ [])
