-- ===== src/Harness/Start.antt =====
-- When `start_task` makes a task, and what an operation whose last writes fail leaves behind
-- (src-tauri/src/harness/state.rs).
use gpt_tools_mcp.Prelude.{
  String, ◌≤◌, ◌≡◌, ◌≢◌, ◌↔◌, inl, inr, refl, true, false, Option, none, some, arith, List, [], ◌∷◌,
}
use gpt_tools_mcp.Prelude.Text.{trim, is_empty}
use gpt_tools_mcp.Prelude.Assoc.{get}
use gpt_tools_mcp.Harness.{TaskSession, is_writable}
use gpt_tools_mcp.Harness.Store.{
  HarnessStore, HarnessResult, HarnessError, Io, ok, err, load_task, save_task, save_state,
  append_event, list_tasks,
}
use gpt_tools_mcp.Harness.State.{
  Env, current_task, new_task, start_task, write_task, save_workspace_state, record_event,
}
use gpt_tools_mcp.Harness.Effect.{load_task-cases}
use gpt_tools_mcp.Harness.Check.{current_task-load_task}
use gpt_tools_mcp.Harness.Single.{writable_tasks, IsReadable, current_task-none}
use gpt_tools_mcp.Harness.Names.{IsWellFormed}

pub get-writable :
    (id : String) (t : TaskSession) (ts : List (String × TaskSession))
    → get id ts ≡ some t
    → is_writable t.status ≡ true
    → 1 ≤ writable_tasks ts
unfolding get
get-writable id t [] h w = absurd (cc)
get-writable id t ((j, u) ∷ ts) h w = ground (arith, get-writable id t ts)

pub loaded-get :
    (io : Io) (id : String) (s : HarnessStore) (t : TaskSession)
    → load_task io id s ≡ ok t
    → get id s.tasks ≡ some t
loaded-get io id s t h = elim (load_task-cases io id s) [
  | inl (u, here, l) ↦ ground arith
  | inr (e, l) ↦ absurd (ground arith)
]

-- The file system answers every call.
pub record IsSound (io : Io) : Type 0 where
  pub lists : io.lists ≡ true
  pub readable : IsReadable io
  pub saves_task : io.saves_task ≡ true
  pub saves_state : io.saves_state ≡ true
  pub appends : io.appends ≡ true

current_task-some :
    (io : Io) (s : HarnessStore) (t : TaskSession)
    → IsWellFormed s
    → current_task io s ≡ ok (some t)
    → 1 ≤ writable_tasks s.tasks
current_task-some io s t f h =
    let (w, l) = current_task-load_task io s t f h in
    get-writable t.id t s.tasks (loaded-get io t.id s t l) w

pub current_task-err :
    (io : Io) (s : HarnessStore) (e : HarnessError) → io.lists ≡ true → current_task io s ≢ err e
unfolding current_task list_tasks
current_task-err io s e l h = absurd (ground arith)

write_task-ok :
    (v : Env) (t : TaskSession) (s : HarnessStore) → IsSound v.io → (write_task v t s).1 ≡ ok t
unfolding write_task save_task save_workspace_state save_state list_tasks record_event append_event
write_task-ok v t s q = ground (arith, q.lists, q.saves_task, q.saves_state, q.appends)

-- On a file system that answers every call, `start_task` succeeds exactly if the objective is not
-- blank and every task of the workspace is finished.
pub start_task-ok_iff :
    (v : Env) (objective : String) (s : HarnessStore)
    → IsWellFormed s
    → IsSound v.io
    → ((start_task v objective s).1 ≡ ok (new_task v objective))
      ↔ ((is_empty (trim objective) ≡ false) × (writable_tasks s.tasks ≡ 0))
unfolding start_task
start_task-ok_iff v objective s f q = go (current_task v.io s) refl
  where
    go :
        (r : HarnessResult (Option TaskSession))
        → current_task v.io s ≡ r
        → ((start_task v objective s).1 ≡ ok (new_task v objective))
          ↔ ((is_empty (trim objective) ≡ false) × (writable_tasks s.tasks ≡ 0))
    go (err e) h = absurd (current_task-err v.io s e q.lists h)
    go (ok (some t)) h = unfold start_task in ground (arith, current_task-some v.io s t f h)
    go (ok none) h =
        unfold start_task in
        ground
          (arith, current_task-none v.io s q.readable h, write_task-ok v (new_task v objective) s q)
