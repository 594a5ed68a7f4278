-- ===== src/Harness/Tests.antt =====
-- A workspace with its tasks, and the theorems on it (src-tauri/src/harness).
use gpt_tools_mcp.Prelude.{
  String, ◌≡◌, ◌≤◌, ◌≢◌, refl, arith, eq_iff, true, false, some, List, [], ◌∷◌, Any,
}
use gpt_tools_mcp.Prelude.Text.{trim, is_empty}
use gpt_tools_mcp.Prelude.Assoc.{get, insert}
use gpt_tools_mcp.Harness.{
  TaskSession, ProjectBaseline, verifying, completed, is_writable, can_transition_to,
}
use gpt_tools_mcp.Harness.Store.{
  HarnessStore, Io, ok, err, store_io_failed, invalid_task_transition, load_task, save_task,
  save_state, append_event, list_tasks, sort_tasks, insert_task,
}
use gpt_tools_mcp.Harness.State.{
  Env, current_task, new_task, start_task, transition, write_task, write_status,
  save_workspace_state, record_event, refreshed, refreshed_host, refresh_expected_state,
  refresh_host_expected_state,
}
use gpt_tools_mcp.Harness.Baseline.{status, status_for}
use gpt_tools_mcp.Harness.Trace.{Op, starts, transitions, step, run, no_files}
use gpt_tools_mcp.Harness.Names.{IsWellFormed, run-IsNamed, no_files-IsWellFormed}
use gpt_tools_mcp.Harness.Single.{writable_tasks, one_writable_task}
use gpt_tools_mcp.Harness.Life.{Verifies, completed_needs_verifying}
use gpt_tools_mcp.Harness.Start.{IsSound}
use gpt_tools_mcp.Harness.Failure.{transition_half_done}

abbrev pub disk : Io
disk = record {
  lists = true;
  reads = λ id. true;
  parses = λ id. true;
  saves_task = true;
  saves_state = true;
  appends = true;
}

abbrev full_disk : Io
full_disk = record disk { appends = false }

abbrev pub worktree : ProjectBaseline
worktree = record {
  branch = some "main";
  head = some "1f3a";
  worktree_fingerprint = "w0";
  entries = [];
  captured_at = "90";
}

abbrev pub env : String → String → Env
env now uuid = record {
  workspace_id = "ws";
  io = disk;
  observed = worktree;
  now = now;
  later = now;
  uuid = uuid;
  event_uuid = "e";
  operation_uuid = "o";
}

-- The workspace after a commit.
abbrev pub committed : Env
committed = record (env "400" "t3") {
  observed = record worktree { head = some "2b4c"; worktree_fingerprint = "w1" };
}

abbrev failing : Env
failing = record (env "300" "t2") { io = full_disk }

abbrev finishing : List Op
finishing =
    starts (env "100" "t1") " Fix the build "
    ∷ transitions (env "200" "t1") "t1" verifying
    ∷ transitions (env "300" "t1") "t1" completed
    ∷ []

abbrev pub begun : HarnessStore
begun = run no_files (starts (env "100" "t1") " Fix the build " ∷ [])

abbrev pub task : TaskSession
task = new_task (env "100" "t1") " Fix the build "

abbrev finished : HarnessStore
finished = run no_files finishing

abbrev finished_task : TaskSession
finished_task = record task { status = completed; updated_at = "300" }

finished_get : get "t1" finished.tasks ≡ some finished_task
unfolding run step start_task transition load_task write_task write_status save_task
    save_workspace_state record_event current_task list_tasks sort_tasks save_state append_event
    can_transition_to is_writable insert get is_empty trim
finished_get = refl

begun_get : get "t1" begun.tasks ≡ some task
unfolding run step start_task write_task save_task save_workspace_state record_event current_task
    list_tasks sort_tasks save_state append_event insert get is_empty trim
begun_get = refl

pub begun_status : status (env "200" "t2") begun ≡ ok (status_for worktree (some task))
unfolding run step start_task write_task save_task save_workspace_state record_event current_task
    list_tasks sort_tasks insert_task save_state append_event insert get is_empty trim status
    is_writable
begun_status = refl

pub begun_current : current_task disk begun ≡ ok (some task)
unfolding run step start_task write_task save_task save_workspace_state record_event current_task
    list_tasks sort_tasks insert_task save_state append_event insert get is_empty trim is_writable
begun_current = refl

pub begun_task : load_task disk "t1" begun ≡ ok task
unfolding load_task
begun_task = rw begun_get refl

begun_task_failing : load_task full_disk "t1" begun ≡ ok task
unfolding load_task
begun_task_failing = rw begun_get refl

recorded_begun : (refresh_expected_state committed "t1" begun).1 ≡ ok (refreshed committed task)
unfolding refresh_expected_state save_task
recorded_begun = rw begun_task refl

host_begun :
    (refresh_host_expected_state committed "t1" begun).1 ≡ ok (refreshed_host committed task)
unfolding refresh_host_expected_state save_task
host_begun = rw begun_task refl

begun-IsWellFormed : IsWellFormed begun
begun-IsWellFormed =
    run-IsNamed no_files (starts (env "100" "t1") " Fix the build " ∷ []) no_files-IsWellFormed

one_writable_task_example : writable_tasks (run no_files finishing).tasks ≤ 1
one_writable_task_example = one_writable_task finishing ((λ id. refl), (tt, (tt, tt)))

completed_needs_verifying_example : Any (Verifies "t1") finishing
completed_needs_verifying_example =
    completed_needs_verifying "t1" finishing finished_task finished_get refl

other_id : ◌≢◌ {A = String} "t2" "t1"
other_id e = let same : false ≡ true = (eq_iff "t2" "t1").1 e in absurd (ground (arith, same))

disk-IsSound : IsSound disk
disk-IsSound = record {
  lists = refl;
  readable = λ id. refl;
  saves_task = refl;
  saves_state = refl;
  appends = refl;
}

transition_half_done_example :
    ((transition failing "t1" verifying begun).1 ≡ err store_io_failed)
    × (get "t1" (transition failing "t1" verifying begun).0.tasks
        ≡ some (record task { status = verifying; updated_at = "300" }))
    × ((transition (env "400" "t3") "t1" verifying (transition failing "t1" verifying begun).0).1
        ≡ err invalid_task_transition)
transition_half_done_example =
    transition_half_done failing (env "400" "t3") "t1" verifying task begun begun-IsWellFormed
      begun_task_failing (unfold can_transition_to in refl) refl refl refl
