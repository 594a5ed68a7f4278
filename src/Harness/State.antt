-- ===== src/Harness/State.antt =====
-- src-tauri/src/harness/state.rs: the operations of `Harness` on the tasks of a workspace. An
-- operation takes the files, changes them call by call, and stops at the first call that fails,
-- with what the calls before it have written.
use gpt_tools_mcp.Prelude.{
  String, true, not, List, [], map, Option, none, some, take, find, if◌then◌else◌,
}
use gpt_tools_mcp.Prelude.Text.{trim, is_empty}
use gpt_tools_mcp.Json.{Value, string, bool, object, end, field}
use gpt_tools_mcp.Harness.{
  TaskStatus, TaskSession, ProjectBaseline, HarnessEvent, current_schema, active, is_writable,
  can_transition_to, as_word,
}
use gpt_tools_mcp.Harness.Store.{
  HarnessStore, HarnessResult, Io, ok, err, invalid_argument, task_already_active,
  invalid_task_transition, save_task, load_task, list_tasks, save_state, append_event,
}

-- What an operation takes from its surroundings: the `workspace_id` of the `Harness`, the answers of the file system, the workspace's
-- files as `capture_baseline` sees them, the two readings of the clock, and the fresh UUIDs.
pub record Env : Type 0 where
  pub workspace_id : String
  pub io : Io
  pub observed : ProjectBaseline
  pub now : String
  pub later : String
  pub uuid : String
  pub event_uuid : String
  pub operation_uuid : String

-- `?` on a call that changes the files.
abbrev pub and_then {ℓ κ} :
    {A : Type ℓ} {B : Type κ}
    → HarnessStore × HarnessResult A
    → (HarnessStore → A → HarnessStore × HarnessResult B)
    → HarnessStore × HarnessResult B
and_then (s, err e) k = (s, err e)
and_then (s, ok a) k = k s a

-- `?` on a call that reads.
abbrev pub reading {ℓ κ} :
    {A : Type ℓ} {B : Type κ}
    → HarnessStore
    → HarnessResult A
    → (A → HarnessStore × HarnessResult B)
    → HarnessStore × HarnessResult B
reading s (err e) k = (s, err e)
reading s (ok a) k = k a

abbrev pub writable_task : HarnessResult (List TaskSession) → HarnessResult (Option TaskSession)
writable_task (err e) = err e
writable_task (ok tasks) = ok (find (λ t. is_writable t.status) tasks)

-- `current_task`.
unfoldable pub current_task : Io → HarnessStore → HarnessResult (Option TaskSession)
unfolding list_tasks
current_task io s = writable_task (list_tasks io s)

-- `save_workspace_state`.
unfoldable pub save_workspace_state :
    Io → Option String → String → HarnessStore → HarnessStore × HarnessResult (Unit {0})
unfolding list_tasks save_state
save_workspace_state io active_task_id updated_at s = reading s (list_tasks io s) (λ tasks.
    save_state io
      (record {
        schema_version = current_schema;
        active_task_id = active_task_id;
        recent_task_ids = map (λ t. t.id) (take 20 tasks);
        updated_at = updated_at;
      })
      s)

abbrev pub event : Env → String → String → Value → Value → HarnessEvent
event v task_id kind input result = record {
  id = v.event_uuid;
  task_id = task_id;
  operation_id = v.operation_uuid;
  kind = kind;
  tool_name = none;
  input_summary = object (field "payload" input (field "workspace_id" (string v.workspace_id) end));
  result_summary = result;
  reason = none;
  affected_files = [];
  created_at = v.later;
}

abbrev pub is_ok : Value
is_ok = object (field "ok" (bool true) end)

-- `record_event`.
unfoldable pub record_event :
    Env → String → String → Value → Value → HarnessStore → HarnessStore × HarnessResult (Unit {0})
unfolding append_event
record_event v task_id kind input result s = append_event v.io (event v task_id kind input result) s

-- The task that `start_task` makes.
abbrev pub new_task : Env → String → TaskSession
new_task v objective = record {
  id = v.uuid;
  workspace_id = v.workspace_id;
  objective = trim objective;
  status = active;
  baseline = v.observed;
  expected_fingerprint = v.observed.worktree_fingerprint;
  completed_steps = [];
  pending_steps = [];
  latest_change_id = none;
  latest_verification_id = none;
  created_at = v.now;
  updated_at = v.now;
}

abbrev pub done {ℓ} : {A : Type ℓ} → A → HarnessStore → Unit {0} → HarnessStore × HarnessResult A
done a s u = (s, ok a)

-- The end of `start_task`, for the task that it made.
unfoldable pub write_task :
    Env → TaskSession → HarnessStore → HarnessStore × HarnessResult TaskSession
unfolding save_task save_workspace_state record_event
write_task v task s = and_then (save_task v.io task s) (λ s' u.
    and_then (save_workspace_state v.io (some task.id) task.updated_at s') (λ s'' w.
      and_then (record_event v task.id "task_started" (object end) is_ok s'') (done task)))

abbrev pub unless_current {ℓ} :
    {A : Type ℓ}
    → HarnessStore
    → Option TaskSession
    → HarnessStore × HarnessResult A
    → HarnessStore × HarnessResult A
unless_current s (some task) rest = (s, err task_already_active)
unless_current s none rest = rest

-- `start_task`.
unfoldable pub start_task : Env → String → HarnessStore → HarnessStore × HarnessResult TaskSession
unfolding current_task write_task
start_task v objective s =
    if is_empty (trim objective)
    then (s, err invalid_argument)
    else reading s (current_task v.io s)
        (λ task. unless_current s task (write_task v (new_task v objective) s))

-- The end of `transition`, for the task with its new status.
unfoldable pub write_status :
    Env → String → TaskSession → HarnessStore → HarnessStore × HarnessResult TaskSession
unfolding save_task save_workspace_state record_event
write_status v id task s = and_then (save_task v.io task s) (λ s' u.
    and_then
      (if not (is_writable task.status)
        then save_workspace_state v.io none task.updated_at s'
        else (s', ok tt))
      (λ s'' w.
        and_then
          (record_event v id "task_status_changed"
            (object (field "status" (string (as_word task.status)) end)) is_ok s'')
          (done task)))

-- `transition`.
unfoldable pub transition :
    Env → String → TaskStatus → HarnessStore → HarnessStore × HarnessResult TaskSession
unfolding load_task write_status
transition v id next s = reading s (load_task v.io id s) (λ task.
    if not (can_transition_to task.status next)
    then (s, err invalid_task_transition)
    else write_status v id (record task { status = next; updated_at = v.now }) s)

-- The task that `refresh_expected_state` writes.
abbrev pub refreshed : Env → TaskSession → TaskSession
refreshed v task = record task {
  expected_fingerprint = v.observed.worktree_fingerprint;
  updated_at = v.now;
}

-- The task that `refresh_host_expected_state` writes.
abbrev pub refreshed_host : Env → TaskSession → TaskSession
refreshed_host v task = record task {
  baseline = record (task.baseline) { branch = v.observed.branch; head = v.observed.head };
  expected_fingerprint = v.observed.worktree_fingerprint;
  updated_at = v.now;
}

abbrev pub save_and_return :
    Io → HarnessStore → TaskSession → HarnessStore × HarnessResult TaskSession
save_and_return io s task = and_then (save_task io task s) (done task)

-- `refresh_expected_state`.
unfoldable pub refresh_expected_state :
    Env → String → HarnessStore → HarnessStore × HarnessResult TaskSession
unfolding load_task save_task
refresh_expected_state v id s =
    reading s (load_task v.io id s) (λ task. save_and_return v.io s (refreshed v task))

-- `refresh_host_expected_state`.
unfoldable pub refresh_host_expected_state :
    Env → String → HarnessStore → HarnessStore × HarnessResult TaskSession
unfolding load_task save_task
refresh_host_expected_state v id s =
    reading s (load_task v.io id s) (λ task. save_and_return v.io s (refreshed_host v task))
