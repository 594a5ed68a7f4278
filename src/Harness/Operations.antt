-- ===== src/Harness/Operations.antt =====
-- The log of operations: `record_operation` of src-tauri/src/harness/state.rs and the file
-- operations.jsonl of src-tauri/src/harness/store.rs.
use gpt_tools_mcp.Prelude.{String, List, [], ◌∷◌, ◌++◌, Option, if◌then◌else◌}
use gpt_tools_mcp.Json.{Value, get_key, as_str, or_default}
use gpt_tools_mcp.Harness.{FileChangeRecord}
use gpt_tools_mcp.Harness.Store.{HarnessResult, ok, err, store_io_failed}
use gpt_tools_mcp.Harness.State.{Env}

pub record OperationRecord : Type 0 where
  pub id : String
  pub workspace_id : String
  pub task_id : Option String
  pub tool : String
  pub kind : String
  pub input_summary : Value
  pub result_summary : Value
  pub reason : Option String
  pub affected_files : List FileChangeRecord
  pub created_at : String

-- The operation that `record_operation` writes; the fresh UUID is that of the surroundings.
unfoldable pub operation :
    Env → Option String → Option String → String → String → Value → Value → OperationRecord
unfolding get_key
operation v operation_id task_id tool kind input result = record {
  id = or_default v.operation_uuid operation_id;
  workspace_id = v.workspace_id;
  task_id = task_id;
  tool = tool;
  kind = kind;
  input_summary = input;
  result_summary = result;
  reason = as_str (get_key "reason" input);
  affected_files = [];
  created_at = v.now;
}

-- `append_operation`: the file gets one more line, or the write fails.
unfoldable pub append_operation :
    Env
    → OperationRecord
    → List OperationRecord
    → List OperationRecord × HarnessResult OperationRecord
append_operation v op log =
    if v.io.appends then (log ++ op ∷ [], ok op) else (log, err store_io_failed)

-- `record_operation`.
unfoldable pub record_operation :
    Env
    → Option String
    → Option String
    → String
    → String
    → Value
    → Value
    → List OperationRecord
    → List OperationRecord × HarnessResult OperationRecord
unfolding operation append_operation
record_operation v operation_id task_id tool kind input result log =
    append_operation v (operation v operation_id task_id tool kind input result) log
