-- ===== src/Harness/Failure.antt =====
-- What `transition` and `start_task` leave behind when a write after the first one fails
-- (src-tauri/src/harness/state.rs).
use gpt_tools_mcp.Prelude.{
  String, ◌≤◌, ◌≡◌, refl, true, false, ◌&&◌, Option, none, some, arith, eq_iff,
}
use gpt_tools_mcp.Prelude.Text.{trim, is_empty}
use gpt_tools_mcp.Prelude.Assoc.{get, get-insert}
use gpt_tools_mcp.Harness.{TaskStatus, TaskSession, is_writable, can_transition_to}
use gpt_tools_mcp.Harness.Store.{
  HarnessStore, HarnessResult, ok, err, store_io_failed, invalid_task_transition,
  task_already_active, load_task, save_task, save_state, append_event, list_tasks,
}
use gpt_tools_mcp.Harness.State.{
  Env, current_task, new_task, start_task, transition, write_task, write_status,
  save_workspace_state, record_event,
}
use gpt_tools_mcp.Harness.Effect.{write_task-tasks, write_status-tasks}
use gpt_tools_mcp.Harness.Single.{writable_tasks, IsReadable, current_task-none}
use gpt_tools_mcp.Harness.Start.{loaded-get, get-writable, current_task-err}
use gpt_tools_mcp.Harness.Names.{IsWellFormed, get-named}

no_way_back : (a b : TaskStatus) → can_transition_to a b ≡ true → can_transition_to b b ≡ false
unfolding can_transition_to
no_way_back a b h = ground arith

write_status-err :
    (v : Env) (id : String) (t : TaskSession) (s : HarnessStore)
    → v.io.saves_task ≡ true
    → v.io.appends ≡ false
    → (write_status v id t s).1 ≡ err store_io_failed
unfolding write_status save_task save_workspace_state save_state list_tasks record_event
    append_event
write_status-err v id t s y n = ground arith

transition-write :
    (v : Env) (id : String) (next : TaskStatus) (u : TaskSession) (s : HarnessStore)
    → load_task v.io id s ≡ ok u
    → can_transition_to u.status next ≡ true
    → transition v id next s ≡ write_status v id (record u { status = next; updated_at = v.now }) s
unfolding transition
transition-write v id next u s loaded allowed = rw (loaded, allowed) refl

transition-refused :
    (v : Env) (id : String) (next : TaskStatus) (u : TaskSession) (s : HarnessStore)
    → get id s.tasks ≡ some u
    → (v.io.reads id && v.io.parses id) ≡ true
    → can_transition_to u.status next ≡ false
    → (transition v id next s).1 ≡ err invalid_task_transition
unfolding transition load_task
transition-refused v id next u s here r no_move = ground arith

-- A transition whose event cannot be appended fails, although it has given the task its new
-- status; and the same transition is then refused as invalid.
pub transition_half_done :
    (v w : Env) (id : String) (next : TaskStatus) (u : TaskSession) (s : HarnessStore)
    → IsWellFormed s
    → load_task v.io id s ≡ ok u
    → can_transition_to u.status next ≡ true
    → v.io.saves_task ≡ true
    → v.io.appends ≡ false
    → (w.io.reads id && w.io.parses id) ≡ true
    → ((transition v id next s).1 ≡ err store_io_failed)
      × (get id (transition v id next s).0.tasks
          ≡ some (record u { status = next; updated_at = v.now }))
      × ((transition w id next (transition v id next s).0).1 ≡ err invalid_task_transition)
transition_half_done v w id next u s f loaded allowed y n r =
    let t = record u { status = next; updated_at = v.now } in
    let own = get-named id u s f (loaded-get v.io id s u loaded) in
    let stored : get id (write_status v id t s).0.tasks ≡ some t =
      ground
        (arith, own, write_status-tasks v id t s, get-insert u.id id t s.tasks, eq_iff u.id id) in
    rw (transition-write v id next u s loaded allowed) (
      write_status-err v id t s y n,
      stored,
      transition-refused w id next t (write_status v id t s).0 stored r
          (no_way_back u.status next allowed),
    )

write_task-err :
    (v : Env) (t : TaskSession) (s : HarnessStore)
    → v.io.saves_task ≡ true
    → (v.io.lists && (v.io.saves_state && v.io.appends)) ≡ false
    → (write_task v t s).1 ≡ err store_io_failed
unfolding write_task save_task save_workspace_state save_state list_tasks record_event append_event
write_task-err v t s y n = ground arith

-- While a task is there to go on with, a `start_task` that can read the files is refused.
busy-start_task :
    (w : Env) (objective : String) (s : HarnessStore)
    → is_empty (trim objective) ≡ false
    → w.io.lists ≡ true
    → IsReadable w.io
    → 1 ≤ writable_tasks s.tasks
    → (start_task w objective s).1 ≡ err task_already_active
busy-start_task w objective s full l r busy = go (current_task w.io s) refl
  where
    go :
        (c : HarnessResult (Option TaskSession))
        → current_task w.io s ≡ c
        → (start_task w objective s).1 ≡ err task_already_active
    go (err e) h = absurd (current_task-err w.io s e l h)
    go (ok none) h = absurd (omega (arith, busy, current_task-none w.io s r h))
    go (ok (some t)) h = unfold start_task in ground arith

-- A `start_task` whose later writes fail returns an error, although it has made the task; and a
-- repetition that can read the files is refused, since the workspace has a task now.
pub start_task_half_done :
    (v w : Env) (objective : String) (s : HarnessStore)
    → is_empty (trim objective) ≡ false
    → current_task v.io s ≡ ok none
    → v.io.saves_task ≡ true
    → v.io.lists ≡ true
    → (v.io.saves_state && v.io.appends) ≡ false
    → w.io.lists ≡ true
    → IsReadable w.io
    → ((start_task v objective s).1 ≡ err store_io_failed)
      × ((start_task w objective (start_task v objective s).0).1 ≡ err task_already_active)
start_task_half_done v w objective s full idle y l n l' r =
    let t = new_task v objective in
    let same : start_task v objective s ≡ write_task v t s =
      unfold start_task in rw (full, idle) refl in
    let left = (write_task v t s).0 in
    let here : get v.uuid left.tasks ≡ some t =
      ground
        (arith, write_task-tasks v t s, get-insert v.uuid v.uuid t s.tasks, eq_iff v.uuid v.uuid) in
    let busy = get-writable v.uuid t left.tasks here (unfold is_writable in refl) in
    rw same (write_task-err v t s y (ground arith), busy-start_task w objective left full l' r busy)
