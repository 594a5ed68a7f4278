-- ===== src/Harness/Single.antt =====
-- At most one task to go on with in a workspace (src-tauri/src/harness/state.rs, `start_task` and
-- `current_task`).
use gpt_tools_mcp.Prelude.{
  String, ℕ, ◌+◌, ◌≤◌, ◌≡◌, refl, true, false, Bool, ◌&&◌, none, some, List, [], ◌∷◌, arith, length,
  retain, map, find, All, if◌then◌else◌, ◌∙◌, subst,
}
use gpt_tools_mcp.Prelude.Assoc.{get, insert}
use gpt_tools_mcp.Harness.{TaskStatus, TaskSession, is_writable, can_transition_to}
use gpt_tools_mcp.Harness.Store.{HarnessStore, Io, ok, list_tasks, insert_task, sort_tasks}
use gpt_tools_mcp.Harness.State.{current_task, new_task}
use gpt_tools_mcp.Harness.Trace.{Op, starts, step, run, no_files}
use gpt_tools_mcp.Harness.Names.{IsWellFormed, get-named, step-IsNamed, no_files-IsWellFormed}
use gpt_tools_mcp.Harness.Effect.{kept, started, rewritten, moved, step-Effect}

-- The number of tasks that are not finished: neither completed, verified or not, nor rolled back.
abbrev pub writable_tasks : List (String × TaskSession) → ℕ
writable_tasks ts = length (retain (λ e. is_writable e.1.status) ts)

abbrev weight_of : TaskStatus → ℕ
weight_of a = if is_writable a then 1 else 0

abbrev weight : TaskSession → ℕ
weight t = weight_of t.status

writable_tasks-insert-le :
    (id : String) (t : TaskSession) (ts : List (String × TaskSession))
    → writable_tasks (insert id t ts) ≤ writable_tasks ts + weight t
unfolding insert
writable_tasks-insert-le id t [] = ground arith
writable_tasks-insert-le id t ((j, u) ∷ ts) = ground (arith, writable_tasks-insert-le id t ts)

writable_tasks-insert :
    (id : String) (u t : TaskSession) (ts : List (String × TaskSession))
    → get id ts ≡ some u
    → writable_tasks (insert id t ts) + weight u ≡ writable_tasks ts + weight t
unfolding insert get
writable_tasks-insert id u t [] h = ground arith
writable_tasks-insert id u t ((j, w) ∷ ts) h = ground (arith, writable_tasks-insert id u t ts)

abbrev writes : TaskSession → Bool
writes t = is_writable t.status

-- A search that fails in the sorted list fails in the list.
find-insert_task :
    (t : TaskSession) (ts : List TaskSession)
    → find writes (insert_task t ts) ≡ none
    → (writes t ≡ false) × (find writes ts ≡ none)
unfolding insert_task
find-insert_task t [] h = ground arith
find-insert_task t (u ∷ ts) h = ground (arith, find-insert_task t ts)

find-sort_tasks :
    (ts : List TaskSession) → find writes (sort_tasks ts) ≡ none → find writes ts ≡ none
unfolding sort_tasks
find-sort_tasks [] h = refl
find-sort_tasks (t ∷ ts) h =
    let both = find-insert_task t (sort_tasks ts) h in ground (arith, both, find-sort_tasks ts)

-- Every file of a task that is there can be read and parses.
abbrev pub IsReadable : Io → Type 0
IsReadable io = (id : String) → (io.reads id && io.parses id) ≡ true

none_writable :
    (io : Io) (ts : List (String × TaskSession))
    → IsReadable io
    → find writes (map (λ e. e.1) (retain (λ e. io.reads e.0 && io.parses e.0) ts)) ≡ none
    → writable_tasks ts ≡ 0
none_writable io [] r h = refl
none_writable io ((id, t) ∷ ts) r h = ground (arith, r id, none_writable io ts r)

pub current_task-none :
    (io : Io) (s : HarnessStore)
    → IsReadable io
    → current_task io s ≡ ok none
    → writable_tasks s.tasks ≡ 0
unfolding current_task list_tasks
current_task-none io s r h =
    let ts = map (λ e. e.1) (retain (λ e. io.reads e.0 && io.parses e.0) s.tasks) in
    none_writable io s.tasks r (find-sort_tasks ts (ground arith))

-- The surroundings in which an operation lists the tasks.
abbrev pub Lists : Op → Type 0
Lists (starts v objective) = IsReadable v.io
Lists _ = Unit

-- No task that is finished comes back.
weight-moved : (a b : TaskStatus) → can_transition_to a b ≡ true → weight_of b ≤ weight_of a
unfolding can_transition_to is_writable
weight-moved a b h = ground arith

replaced :
    (id : String) (u t : TaskSession) (s s' : HarnessStore)
    → IsWellFormed s
    → get id s.tasks ≡ some u
    → t.id ≡ u.id
    → weight t ≤ weight u
    → s'.tasks ≡ insert t.id t s.tasks
    → writable_tasks s'.tasks ≤ writable_tasks s.tasks
replaced id u t s s' v here same lighter e =
    let own : t.id ≡ id = same ∙ get-named id u s v here in
    let there : get t.id s.tasks ≡ some u = rw own here in
    rw e (omega (arith, lighter, writable_tasks-insert t.id u t s.tasks there))

step-writable_tasks :
    (s : HarnessStore) (op : Op)
    → IsWellFormed s
    → Lists op
    → writable_tasks s.tasks ≤ 1
    → writable_tasks (step s op).tasks ≤ 1
step-writable_tasks s op v r h = elim (step-Effect s op) [
  | kept e ↦ rw e h
  | started w objective same idle e ↦
      let readable : IsReadable w.io = subst Lists same r in
      let empty = current_task-none w.io s readable idle in
      let more = writable_tasks-insert-le w.uuid (new_task w objective) s.tasks in
      unfold is_writable in rw e (omega (arith, empty, more))
  | rewritten id u t here same status e ↦
      omega (arith, h, replaced id u t s (step s op) v here same (ground (arith, status)) e)
  | moved w id next u t same here allowed id_same status e ↦ omega (
    arith,
    h,
    replaced id u t s (step s op) v here id_same (rw status (weight-moved u.status next allowed)) e,
  )
]

run-writable_tasks :
    (s : HarnessStore) (ops : List Op)
    → IsWellFormed s
    → All Lists ops
    → writable_tasks s.tasks ≤ 1
    → writable_tasks (run s ops).tasks ≤ 1
unfolding run
run-writable_tasks s [] v r h = h
run-writable_tasks s (op ∷ ops) v r h =
    run-writable_tasks (step s op) ops (step-IsNamed s op v) r.1 (step-writable_tasks s op v r.0 h)

-- A workspace has at most one task that is not finished, after any operations from an empty
-- workspace, with any writes that fail, as long as `start_task` can read every task file.
pub one_writable_task :
    (ops : List Op) → All Lists ops → writable_tasks (run no_files ops).tasks ≤ 1
one_writable_task ops r = run-writable_tasks no_files ops no_files-IsWellFormed r (omega arith)
