-- ===== src/Harness/Baseline.antt =====
-- src-tauri/src/harness/state.rs: `update_steps`, `check_baseline`, and the part of `status` that
-- decides whether the workspace may be written.
use gpt_tools_mcp.Prelude.{
  String, Bool, true, false, not, ◌&&◌, ◌||◌, List, [], ◌∷◌, ◌++◌, Option, none, some, str_eq,
  if◌then◌else◌,
}
use gpt_tools_mcp.Json.{Items, string, array, object, nil, cons, end, field}
use gpt_tools_mcp.Harness.{TaskStatus, TaskSession, ProjectBaseline, is_writable}
use gpt_tools_mcp.Harness.Store.{
  HarnessStore, HarnessResult, ok, err, baseline_stale, file_changed_externally, save_task,
  load_task,
}
use gpt_tools_mcp.Harness.State.{Env, and_then, reading, current_task, record_event, is_ok, done}

abbrev pub or_keep {ℓ} : {A : Type ℓ} → A → Option A → A
or_keep a none = a
or_keep a (some b) = b

abbrev pub strings : List String → Items
strings [] = nil
strings (s ∷ rest) = cons (string s) (strings rest)

-- `update_steps`.
unfoldable pub update_steps :
    Env
    → String
    → Option (List String)
    → Option (List String)
    → HarnessStore
    → HarnessStore × HarnessResult TaskSession
unfolding load_task save_task record_event
update_steps v id completed pending s = reading s (load_task v.io id s) (λ task.
    let task' = record task {
      completed_steps = or_keep task.completed_steps completed;
      pending_steps = or_keep task.pending_steps pending;
      updated_at = v.now;
    } in
    and_then (save_task v.io task' s) (λ s' u.
      and_then
        (record_event v id "task_updated"
          (object (
            field "completed_steps" (array (strings task'.completed_steps))
              (field "pending_steps" (array (strings task'.pending_steps)) end)))
          is_ok s')
        (done task')))

-- The equality of `Option<String>`.
abbrev pub opt_eq : Option String → Option String → Bool
opt_eq none none = true
opt_eq (some a) (some b) = str_eq a b
opt_eq _ _ = false

abbrev pub check_task : ProjectBaseline → TaskSession → HarnessResult (Unit {0})
check_task current task =
    if not (opt_eq current.branch task.baseline.branch)
      || not (opt_eq current.head task.baseline.head)
    then err baseline_stale
    else if not (str_eq current.worktree_fingerprint task.expected_fingerprint)
    then err file_changed_externally
    else ok tt

abbrev pub check_loaded : ProjectBaseline → HarnessResult TaskSession → HarnessResult (Unit {0})
check_loaded current (err e) = err e
check_loaded current (ok task) = check_task current task

-- `check_baseline`.
unfoldable pub check_baseline : Env → String → HarnessStore → HarnessResult (Unit {0})
unfolding load_task
check_baseline v id s = check_loaded v.observed (load_task v.io id s)

-- The fields of `HarnessStatus` that say whether and how the work may go on.
pub record HarnessStatus : Type 0 where
  pub task_id : Option String
  pub task_state : Option TaskStatus
  pub task_updated_at : Option String
  pub writable : Bool
  pub baseline_matches : Option Bool
  pub next_actions : List String

abbrev pub always : List String
always = "read_file" ∷ "git_status" ∷ []

-- The suggestions of `status` while a task is there.
abbrev pub next_actions_for : Bool → Bool → List String
next_actions_for matches writable =
    (if not matches
      then "project_state" ∷ "git_diff" ∷ "refresh_baseline" ∷ []
      else if not writable
      then "resume_task" ∷ []
      else [])
    ++ always

-- The `match` of `status` on the current task, with the suggestions that follow from it.
abbrev pub status_for : ProjectBaseline → Option TaskSession → HarnessStatus
status_for current none = record {
  task_id = none;
  task_state = none;
  task_updated_at = none;
  writable = true;
  baseline_matches = none;
  next_actions = "start_task" ∷ always;
}
status_for current (some task) =
    let matches =
      opt_eq task.baseline.branch current.branch
      && (opt_eq task.baseline.head current.head
          && str_eq task.expected_fingerprint current.worktree_fingerprint) in
    let writable = matches && is_writable task.status in
    record {
      task_id = some task.id;
      task_state = some task.status;
      task_updated_at = some task.updated_at;
      writable = writable;
      baseline_matches = some matches;
      next_actions = next_actions_for matches writable;
    }

abbrev pub status_of_current :
    ProjectBaseline → HarnessResult (Option TaskSession) → HarnessResult HarnessStatus
status_of_current current (err e) = err e
status_of_current current (ok task) = ok (status_for current task)

-- `status`.
unfoldable pub status : Env → HarnessStore → HarnessResult HarnessStatus
unfolding current_task
status v s = status_of_current v.observed (current_task v.io s)
