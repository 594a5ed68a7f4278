-- ===== src/Harness/Store.antt =====
-- src-tauri/src/harness/store.rs: the files of one workspace. A call of the file system that fails
-- is a flag of `Io`, which an operation takes as an argument; a write that fails changes nothing,
-- since the text goes to a temporary file that is then renamed.
use gpt_tools_mcp.Prelude.{
  String, Bool, ◌&&◌, ◌++◌, List, [], ◌∷◌, map, Option, none, some, retain, if◌then◌else◌,
}
use gpt_tools_mcp.Prelude.Text.{codes, before}
use gpt_tools_mcp.Prelude.Assoc.{get, insert}
use gpt_tools_mcp.Harness.{TaskSession, HarnessEvent, WorkspaceHarnessState}

-- The code of a `HarnessError`.
pub data HarnessError : Type 0 where
  invalid_argument task_already_active invalid_task_transition baseline_stale
        file_changed_externally store_io_failed store_corrupt :
      HarnessError

pub data HarnessResult {ℓ} (A : Type ℓ) : Type ℓ where
  ok : A → HarnessResult A
  err : HarnessError → HarnessResult A

-- The files of a workspace: `tasks/<id>.json`, `state.json` and `events/<id>.jsonl`.
pub record HarnessStore : Type 0 where
  pub tasks : List (String × TaskSession)
  pub state : Option WorkspaceHarnessState
  pub events : List (String × List HarnessEvent)

-- What the file system answers while an operation runs: whether the directory of the tasks can be
-- listed, or is not there; which task files can be read, and which of them parse; and which writes
-- succeed.
pub record Io : Type 0 where
  pub lists : Bool
  pub reads : String → Bool
  pub parses : String → Bool
  pub saves_task : Bool
  pub saves_state : Bool
  pub appends : Bool

-- `save_task`.
unfoldable pub save_task : Io → TaskSession → HarnessStore → HarnessStore × HarnessResult (Unit {0})
save_task io task s =
    if io.saves_task
    then (record s { tasks = insert task.id task s.tasks }, ok tt)
    else (s, err store_io_failed)

abbrev pub parsed : Bool → Option TaskSession → HarnessResult TaskSession
parsed good none = err store_io_failed
parsed good (some task) = if good then ok task else err store_corrupt

-- `load_task`.
unfoldable pub load_task : Io → String → HarnessStore → HarnessResult TaskSession
load_task io id s =
    if io.reads id then parsed (io.parses id) (get id s.tasks) else err store_io_failed

-- `sort_by(|a, b| b.updated_at.cmp(&a.updated_at))`, a stable sort: the latest first.
unfoldable pub insert_task : TaskSession → List TaskSession → List TaskSession
unfolding before
insert_task t [] = t ∷ []
insert_task t (u ∷ rest) =
    if before (codes t.updated_at) (codes u.updated_at)
    then u ∷ insert_task t rest
    else t ∷ u ∷ rest

unfoldable pub sort_tasks : List TaskSession → List TaskSession
unfolding insert_task
sort_tasks [] = []
sort_tasks (t ∷ rest) = insert_task t (sort_tasks rest)

-- `list_tasks`: the files that cannot be read are left out.
unfoldable pub list_tasks : Io → HarnessStore → HarnessResult (List TaskSession)
unfolding sort_tasks
list_tasks io s =
    if io.lists
    then ok (sort_tasks (map (λ e. e.1) (retain (λ e. io.reads e.0 && io.parses e.0) s.tasks)))
    else err store_io_failed

-- `save_workspace_state` of the store.
unfoldable pub save_state :
    Io → WorkspaceHarnessState → HarnessStore → HarnessStore × HarnessResult (Unit {0})
save_state io state s =
    if io.saves_state then (record s { state = some state }, ok tt) else (s, err store_io_failed)

abbrev pub or_nil : Option (List HarnessEvent) → List HarnessEvent
or_nil none = []
or_nil (some events) = events

-- `append_event_for_workspace`.
unfoldable pub append_event :
    Io → HarnessEvent → HarnessStore → HarnessStore × HarnessResult (Unit {0})
append_event io event s =
    if io.appends
    then (
      record s {
        events =
            insert event.task_id (or_nil (get event.task_id s.events) ++ (event ∷ [])) s.events;
      },
      ok tt,
    )
    else (s, err store_io_failed)
