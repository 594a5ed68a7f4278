-- ===== src/Harness/Effect.antt =====
-- What one operation of the harness does to the files of the tasks
-- (src-tauri/src/harness/state.rs).
use gpt_tools_mcp.Prelude.{
  String, ◌≡◌, ◌⊎◌, inl, inr, refl, true, false, Option, none, some, List, arith, if◌then◌else◌,
  Bool-cases, Option-cases,
}
use gpt_tools_mcp.Prelude.Text.{trim, is_empty}
use gpt_tools_mcp.Prelude.Assoc.{get, insert}
use gpt_tools_mcp.Harness.{TaskStatus, TaskSession, can_transition_to}
use gpt_tools_mcp.Harness.Store.{
  HarnessStore, HarnessResult, HarnessError, Io, ok, err, store_io_failed, store_corrupt, save_task,
  load_task, list_tasks, save_state, append_event,
}
use gpt_tools_mcp.Harness.State.{
  Env, current_task, save_workspace_state, record_event, new_task, write_task, start_task,
  write_status, transition, refresh_expected_state, refresh_host_expected_state, refreshed,
  refreshed_host, save_and_return,
}
use gpt_tools_mcp.Harness.Baseline.{update_steps, or_keep}
use gpt_tools_mcp.Harness.Trace.{Op, starts, transitions, updates, refreshes, refreshes_host, step}

abbrev saved : Io → TaskSession → HarnessStore → List (String × TaskSession)
saved io t s = if io.saves_task then insert t.id t s.tasks else s.tasks

pub write_task-tasks :
    (v : Env) (t : TaskSession) (s : HarnessStore) → (write_task v t s).0.tasks ≡ saved v.io t s
unfolding write_task save_task save_workspace_state save_state list_tasks record_event append_event
write_task-tasks v t s = ground arith

pub write_status-tasks :
    (v : Env) (id : String) (t : TaskSession) (s : HarnessStore)
    → (write_status v id t s).0.tasks ≡ saved v.io t s
unfolding write_status save_task save_workspace_state save_state list_tasks record_event
    append_event
write_status-tasks v id t s = ground arith

-- The task files `left` after `op`: as before; or with the new task, which is made only when the
-- tasks that could be read had none to go on with; or with a task rewritten in its status; or with
-- a task in a next status that its own allows.
pub data Effect (s : HarnessStore) (op : Op) (left : List (String × TaskSession)) : Type 0 where
  kept : left ≡ s.tasks → Effect s op left
  started :
      (v : Env) (objective : String)
      → op ≡ starts v objective
      → current_task v.io s ≡ ok none
      → left ≡ insert v.uuid (new_task v objective) s.tasks
      → Effect s op left
  rewritten :
      (id : String) (u t : TaskSession)
      → get id s.tasks ≡ some u
      → t.id ≡ u.id
      → t.status ≡ u.status
      → left ≡ insert t.id t s.tasks
      → Effect s op left
  moved :
      (v : Env) (id : String) (next : TaskStatus) (u t : TaskSession)
      → op ≡ transitions v id next
      → get id s.tasks ≡ some u
      → can_transition_to u.status next ≡ true
      → t.id ≡ u.id
      → t.status ≡ next
      → left ≡ insert t.id t s.tasks
      → Effect s op left

pub load_task-cases :
    (io : Io) (id : String) (s : HarnessStore)
    → ((t : TaskSession) × (get id s.tasks ≡ some t) × (load_task io id s ≡ ok t))
      ⊎ ((e : HarnessError) × (load_task io id s ≡ err e))
unfolding load_task
load_task-cases io id s = elim (Option-cases (get id s.tasks)) [
  | inl n ↦ inr (store_io_failed, ground arith)
  | inr (t, e) ↦ elim (Bool-cases (io.reads id)) [
    | inr n ↦ inr (store_io_failed, ground arith)
    | inl r ↦ elim (Bool-cases (io.parses id)) [
      | inr n ↦ inr (store_corrupt, ground arith)
      | inl p ↦ inl (t, e, ground arith)
    ]
  ]
]

start_task-Effect :
    (v : Env) (objective : String) (s : HarnessStore)
    → Effect s (starts v objective) (start_task v objective s).0.tasks
unfolding start_task
start_task-Effect v objective s = elim (Bool-cases (is_empty (trim objective))) [
  | inl y ↦ kept (ground arith)
  | inr n ↦ go (current_task v.io s) refl n
]
  where
    go :
        (r : HarnessResult (Option TaskSession))
        → current_task v.io s ≡ r
        → is_empty (trim objective) ≡ false
        → Effect s (starts v objective) (start_task v objective s).0.tasks
    go (err e) h n = kept (unfold start_task in ground arith)
    go (ok (some t)) h n = kept (unfold start_task in ground arith)
    go (ok none) h n = elim (Bool-cases v.io.saves_task) [
      | inl y ↦
          started v objective refl h
            (unfold start_task in ground (arith, write_task-tasks v (new_task v objective) s))
      | inr m ↦
          kept (unfold start_task in ground (arith, write_task-tasks v (new_task v objective) s))
    ]

transition-Effect :
    (v : Env) (id : String) (next : TaskStatus) (s : HarnessStore)
    → Effect s (transitions v id next) (transition v id next s).0.tasks
unfolding transition
transition-Effect v id next s = elim (load_task-cases v.io id s) [
  | inr (e, h) ↦ kept (ground arith)
  | inl (u, here, h) ↦ elim (Bool-cases (can_transition_to u.status next)) [
    | inr n ↦ kept (ground arith)
    | inl y ↦
        let t = record u { status = next; updated_at = v.now } in
        elim (Bool-cases v.io.saves_task) [
          | inl w ↦
              moved v id next u t refl here y refl refl
                (ground (arith, write_status-tasks v id t s))
          | inr n ↦ kept (ground (arith, write_status-tasks v id t s))
        ]
  ]
]

update_steps-Effect :
    (v : Env) (id : String) (completed pending : Option (List String)) (s : HarnessStore)
    → Effect s (updates v id completed pending) (update_steps v id completed pending s).0.tasks
unfolding update_steps save_task record_event append_event
update_steps-Effect v id completed pending s = elim (load_task-cases v.io id s) [
  | inr (e, h) ↦ kept (ground arith)
  | inl (u, here, h) ↦ elim (Bool-cases v.io.saves_task) [
    | inl w ↦
        rewritten id u
          (record u {
            completed_steps = or_keep u.completed_steps completed;
            pending_steps = or_keep u.pending_steps pending;
            updated_at = v.now;
          })
          here refl refl (ground arith)
    | inr n ↦ kept (ground arith)
  ]
]

save_and_return-Effect :
    (io : Io) (id : String) (u t : TaskSession) (s : HarnessStore) (op : Op)
    → get id s.tasks ≡ some u
    → t.id ≡ u.id
    → t.status ≡ u.status
    → Effect s op (save_and_return io s t).0.tasks
unfolding save_task
save_and_return-Effect io id u t s op here same status = elim (Bool-cases io.saves_task) [
  | inl y ↦ rewritten id u t here same status (ground arith)
  | inr n ↦ kept (ground arith)
]

refresh-Effect :
    (v : Env) (id : String) (s : HarnessStore)
    → Effect s (refreshes v id) (refresh_expected_state v id s).0.tasks
unfolding refresh_expected_state
refresh-Effect v id s = elim (load_task-cases v.io id s) [
  | inr (e, h) ↦ kept (ground arith)
  | inl (u, here, h) ↦
      rw h (save_and_return-Effect v.io id u (refreshed v u) s (refreshes v id) here refl refl)
]

refresh_host-Effect :
    (v : Env) (id : String) (s : HarnessStore)
    → Effect s (refreshes_host v id) (refresh_host_expected_state v id s).0.tasks
unfolding refresh_host_expected_state
refresh_host-Effect v id s = elim (load_task-cases v.io id s) [
  | inr (e, h) ↦ kept (ground arith)
  | inl (u, here, h) ↦
      rw h (
        save_and_return-Effect v.io id u (refreshed_host v u) s (refreshes_host v id) here refl
          refl)
]

pub step-Effect : (s : HarnessStore) (op : Op) → Effect s op (step s op).tasks
unfolding step
step-Effect s (starts v objective) = start_task-Effect v objective s
step-Effect s (transitions v id next) = transition-Effect v id next s
step-Effect s (updates v id completed pending) = update_steps-Effect v id completed pending s
step-Effect s (refreshes v id) = refresh-Effect v id s
step-Effect s (refreshes_host v id) = refresh_host-Effect v id s
