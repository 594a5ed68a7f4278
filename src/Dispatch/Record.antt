-- ===== src/Dispatch/Record.antt =====
-- What `call_tool_with_identity` of src-tauri/src/tools/dispatch.rs records of a call and adds to its
-- answer: the events of the task, the log of operations, the status of the harness.
use gpt_tools_mcp.Prelude.{
  String, Bool, true, false, not, ◌&&◌, List, [], ◌∷◌, Option, none, some, retain, str_eq, inl, inr,
  ◌⊎◌, if◌then◌else◌,
}
use gpt_tools_mcp.Json.{Value, null, bool, string, array, object, nil, get_key}
use gpt_tools_mcp.Answer.{json, insert_key, tool_err_code, succeeded, failed}
use gpt_tools_mcp.Approval.Decide.{mark_launch_failed}
use gpt_tools_mcp.Harness.{TaskSession}
use gpt_tools_mcp.Harness.Store.{HarnessStore, HarnessResult, ok, err, append_event}
use gpt_tools_mcp.Harness.State.{Env, event, current_task, refresh_expected_state}
use gpt_tools_mcp.Harness.Baseline.{HarnessStatus, check_baseline, status}
use gpt_tools_mcp.Harness.Operations.{OperationRecord, record_operation}
use gpt_tools_mcp.Dispatch.{
  Setup, Call, World, checked, started, logged, refused, finished, refreshed, closed, found,
  is_one_of, is_null, operation_input, requires_write_baseline, should_log_operation,
  standalone_operation, task_or_none,
}
use gpt_tools_mcp.Dispatch.Codes.{launch_failed_output}
use gpt_tools_mcp.Dispatch.Gate.{Consumed}

-- `attach_standalone_metadata`.
unfoldable pub attach_standalone_metadata : String → Value → Value
unfolding insert_key
attach_standalone_metadata hint output = insert_key "recovery_hint" (string hint) (
    insert_key "next_actions" (array nil) (
      insert_key "task_required" (bool false)
        (insert_key "harness_mode" (string "standalone") output)))

abbrev is_object : Value → Bool
is_object (object fs) = true
is_object _ = false

-- The actions that a status suggests: none without a task, and only tools that are exposed.
unfoldable pub shown_status : List String → Bool → HarnessStatus → HarnessStatus
shown_status exposed standalone s =
    let actions : List String = elim s.task_id [
      | none ↦ if standalone then [] else s.next_actions
      | some id ↦ s.next_actions
    ] in
    record s { next_actions = retain (is_one_of exposed) actions }

abbrev with_status : Setup → Bool → Value → HarnessResult HarnessStatus → Value
unfolding shown_status attach_standalone_metadata insert_key
with_status t standalone output (err e) = output
with_status t standalone output (ok s) =
    let shown =
      insert_key "harness" (t.texts.harness_status (shown_status t.exposed standalone s)) output in
    if standalone && is_object output
    then attach_standalone_metadata "命令未成功；请检查 stderr、exit_code 或调整参数后重试。" shown
    else shown

-- `attach_harness_status`.
unfoldable pub attach_harness_status : Setup → Env → World → Value → Bool → Value
unfolding with_status status
attach_harness_status t v w output standalone = with_status t standalone output (status v w.harness)

-- `record_event` with the name of a tool; an error of it is ignored.
unfoldable pub record_tool_event :
    Env → String → String → String → Value → Value → HarnessStore → HarnessStore
unfolding append_event
record_tool_event v task_id kind name input result s =
    (append_event v.io (record (event v task_id kind input result) { tool_name = some name }) s).0

-- The task that a write belongs to, or the answer to a workspace that is not as the task left it.
abbrev pub checked_write :
    Setup → Call → World → TaskSession → HarnessResult (Unit {0}) → World × (Value ⊎ Option String)
checked_write t c w task (err e) = (
  w,
  inl (
      attach_harness_status t (c.at refused) w
        (tool_err_code (t.texts.harness_code e) (t.texts.harness_message e) "permission") false),
)
checked_write t c w task (ok tt) = (
  record w {
    harness =
        record_tool_event (c.at started) task.id "operation_started" c.name (operation_input c.args)
          (json (("ok", bool true) ∷ ("tracking", string "task") ∷ [])) w.harness;
  },
  inr (some task.id),
)

unfoldable pub write_task :
    Setup → Call → World → Option TaskSession → World × (Value ⊎ Option String)
write_task t c w none = (w, inr none)
write_task t c w (some task) =
    checked_write t c w task (check_baseline (c.at checked) task.id w.harness)

unfoldable pub baseline : Setup → Call → World → World × (Value ⊎ Option String)
unfolding requires_write_baseline write_task current_task
baseline t c w =
    if requires_write_baseline c.name c.args
    then write_task t c w (task_or_none (current_task (c.at found).io w.harness))
    else (w, inr none)

abbrev operation_or_none : HarnessResult OperationRecord → Option OperationRecord
operation_or_none (err e) = none
operation_or_none (ok op) = some op

-- What the log says of the start of a tool, and of its end.
unfoldable pub started_input : Call → Value
unfolding json
started_input c = json (("arguments_present", bool (not (is_null c.args))) ∷ [])

unfoldable pub started_result : Value
unfolding json
started_result = json (("ok", bool true) ∷ [])

abbrev or_null : Option Value → Value
or_null none = null
or_null (some v) = v

unfoldable pub finished_result : Call → Value → Value
unfolding json succeeded get_key
finished_result c output = json (
    ("ok", bool (succeeded output))
    ∷ ("tool", string c.name)
    ∷ ("affected_files", or_null (get_key "affected_files" output))
    ∷ [])

abbrev pub ending : Value → String
ending output = if succeeded output then "completed" else "failed"

-- The first line of the log of operations, for the tools that are logged.
unfoldable pub log_started : Call → Option String → World → World × Option OperationRecord
unfolding should_log_operation record_operation started_input started_result
log_started c task_id w =
    let logs =
      record_operation (c.at logged) none task_id c.name "started" (started_input c) started_result
        w.operations in
    if should_log_operation c.name
    then (record w { operations = logs.0 }, operation_or_none logs.1)
    else (w, none)

-- A consumed approval whose process was not started is marked.
unfoldable pub mark_failed_launch : Setup → Call → Option Consumed → Value → World → World
unfolding launch_failed_output mark_launch_failed
mark_failed_launch t c none output w = w
mark_failed_launch t c (some (id, scope, effect)) output w =
    if str_eq c.name "exec_command" && launch_failed_output output
    then record w {
      approvals =
          (mark_launch_failed t.platform id scope c.name effect c.now c.later w.approvals).0;
    }
    else w

abbrev is_none : {A : Type 0} → Option A → Bool
is_none none = true
is_none (some a) = false

abbrev with_operation_id : Option OperationRecord → Value → Value
unfolding insert_key
with_operation_id none output = output
with_operation_id (some op) output = insert_key "operation_id" (string op.id) output

abbrev with_metadata : Call → Option String → Value → Value
unfolding attach_standalone_metadata succeeded standalone_operation
with_metadata c task_id output =
    if is_none task_id && (standalone_operation c.name && succeeded output)
    then attach_standalone_metadata "当前操作已在 standalone 模式完成；如需继续，直接调用下一个开发工具。" output
    else output

-- The answer, with what is added to the output of the tool.
unfoldable pub final_output :
    Setup → Call → World → Option String → Option OperationRecord → Value → Value
unfolding with_metadata with_operation_id attach_harness_status failed
final_output t c w task_id operation output =
    let whole = with_operation_id operation (with_metadata c task_id output) in
    if failed whole then attach_harness_status t (c.at refused) w whole (is_none task_id) else whole

-- What the task is told of the end of the tool, and its new expected state after a success.
unfoldable pub finish_task : Call → Option String → Value → HarnessStore → HarnessStore
unfolding record_tool_event refresh_expected_state succeeded operation_input json
finish_task c none output s = s
finish_task c (some id) output s =
    let told =
      record_tool_event (c.at finished) id "operation_finished" c.name (operation_input c.args)
        (json (("ok", bool (succeeded output)) ∷ ("tool", string c.name) ∷ [])) s in
    if succeeded output then (refresh_expected_state (c.at refreshed) id told).0 else told

-- The last line of the log.
unfoldable pub log_finished :
    Call
    → Option String
    → Option OperationRecord
    → Value
    → List OperationRecord
    → List OperationRecord
unfolding record_operation operation_input finished_result
log_finished c task_id none output log = log
log_finished c task_id (some op) output log =
    (record_operation (c.at closed) (some op.id) task_id c.name (ending output)
      (operation_input c.args) (finished_result c output) log).0
