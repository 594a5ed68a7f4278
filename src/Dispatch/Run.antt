-- ===== src/Dispatch/Run.antt =====
-- `call_tool_with_identity` of src-tauri/src/tools/dispatch.rs: the baseline of the task, the tool
-- itself, and what is recorded of it.
use Prim.Native.String.{◌++◌}
use gpt_tools_mcp.Prelude.{String, false, List, [], ◌∷◌, Option, inl, inr, ◌⊎◌, if◌then◌else◌}
use gpt_tools_mcp.Json.{Value}
use gpt_tools_mcp.Answer.{ToolResult, tool_err, tool_err_code, output_of}
use gpt_tools_mcp.Harness.Operations.{OperationRecord}
use gpt_tools_mcp.Invocation.{AuthorizedInvocation}
use gpt_tools_mcp.Dispatch.{Setup, Call, World, refused, is_one_of}
use gpt_tools_mcp.Dispatch.Prepare.{Outcome, answers, Ready, prepare}
use gpt_tools_mcp.Dispatch.Record.{
  attach_harness_status, baseline, log_started, mark_failed_launch, final_output, finish_task,
  log_finished,
}

-- The tools themselves: those of harness/tools.rs, and those that the `match` on the name calls.
pub record Tools : Type 0 where
  pub harness : Call → World → World × ToolResult
  pub run : Call → Option AuthorizedInvocation → World → World × ToolResult

-- `TOOL_NAMES` of src-tauri/src/harness/tools.rs.
abbrev pub harness_tools : List String
harness_tools =
    "harness_status" ∷ "operation_log" ∷ "project_state" ∷ "start_task" ∷ "update_task"
    ∷ "pause_task" ∷ "resume_task" ∷ "finish_task" ∷ "task_context" ∷ "list_task_events"
    ∷ "change_summary" ∷ []

-- The names of the `match`.
abbrev pub known_tools : List String
known_tools =
    "history_session_bootstrap" ∷ "history_session_checkpoint" ∷ "history_session_validate"
    ∷ "history_session_search" ∷ "history_session_read" ∷ "server_info" ∷ "check_exec_environment"
    ∷ "exec_health_check" ∷ "get_default_cwd" ∷ "set_default_cwd" ∷ "read_file" ∷ "list_dir"
    ∷ "list_files" ∷ "search_text" ∷ "grep_text" ∷ "grep" ∷ "patch_check" ∷ "apply_patch"
    ∷ "exec_command" ∷ "read_output" ∷ "write_stdin" ∷ "kill_session" ∷ "git_status" ∷ "git_diff"
    ∷ "git_log" ∷ "git_show" ∷ "git_blame" ∷ "view_image" ∷ "permission_status"
    ∷ "request_permissions" ∷ "get_approval_status" ∷ []

-- What follows the tool.
unfoldable pub conclude :
    Setup
    → Call
    → Ready
    → Option String
    → Option OperationRecord
    → World × ToolResult
    → World × Outcome
unfolding output_of mark_failed_launch final_output finish_task log_finished
conclude t c r task_id operation (w, result) =
    let marked = mark_failed_launch t c r.consumed (output_of result) w in
    let output = final_output t c marked task_id operation (output_of result) in
    (
      record marked {
        harness = finish_task c task_id output marked.harness;
        operations = log_finished c task_id operation output marked.operations;
      },
      answers output,
    )

abbrev pub perform_logged :
    Setup → Tools → Call → Ready → Option String → World × Option OperationRecord → World × Outcome
perform_logged t tools c r task_id (w, operation) =
    if is_one_of known_tools c.name
    then conclude t c r task_id operation (tools.run c r.invocation w)
    else (w, answers (tool_err_code "INVALID_ARGUMENT" ("Unknown tool: " ++ c.name) "validation"))

abbrev pub perform_write :
    Setup → Tools → Call → Ready → World × (Value ⊎ Option String) → World × Outcome
perform_write t tools c r (w, inl answer) = (w, answers answer)
perform_write t tools c r (w, inr task_id) =
    perform_logged t tools c r task_id (log_started c task_id w)

abbrev pub harness_answer : Setup → Call → World × ToolResult → World × Outcome
harness_answer t c (w, inr value) = (w, answers value)
harness_answer t c (w, inl e) =
    (w, answers (attach_harness_status t (c.at refused) w (tool_err e) false))

-- The second part of a call.
unfoldable pub perform : Setup → Tools → Call → Ready → World → World × Outcome
perform t tools c r w =
    if is_one_of harness_tools c.name
    then harness_answer t c (tools.harness c w)
    else perform_write t tools c r (baseline t c w)

abbrev pub continue : Setup → Tools → Call → World × (Outcome ⊎ Ready) → World × Outcome
continue t tools c (w, inl outcome) = (w, outcome)
continue t tools c (w, inr r) = perform t tools c r w

-- `call_tool_with_identity`.
unfoldable pub call_tool : Setup → Tools → Call → World → World × Outcome
call_tool t tools c w = continue t tools c (prepare t c w)
