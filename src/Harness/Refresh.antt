-- ===== src/Harness/Refresh.antt =====
-- What `refresh_expected_state` and `refresh_host_expected_state` accept, and what an operation
-- whose last writes fail leaves behind (src-tauri/src/harness/state.rs).
use gpt_tools_mcp.Prelude.{
  String, ◌≡◌, ◌↔◌, inl, inr, refl, ◌∙◌, true, ◌&&◌, some, arith, eq_iff, Bool-cases,
}
use gpt_tools_mcp.Prelude.Assoc.{get, get-insert}
use gpt_tools_mcp.Harness.{TaskSession}
use gpt_tools_mcp.Harness.Store.{HarnessStore, Io, ok, load_task, save_task}
use gpt_tools_mcp.Harness.State.{
  Env, refreshed, refreshed_host, save_and_return, refresh_expected_state,
  refresh_host_expected_state,
}
use gpt_tools_mcp.Harness.Baseline.{check_baseline}
use gpt_tools_mcp.Harness.Effect.{load_task-cases}
use gpt_tools_mcp.Harness.Check.{opt_eq_iff}
use gpt_tools_mcp.Harness.Names.{IsWellFormed, get-named}

load_saved :
    (io io' : Io) (id : String) (t : TaskSession) (s : HarnessStore)
    → t.id ≡ id
    → io.saves_task ≡ true
    → (io'.reads id && io'.parses id) ≡ true
    → load_task io' id (save_task io t s).0 ≡ ok t
unfolding load_task save_task
load_saved io io' id t s own w r = ground (arith, get-insert t.id id t s.tasks, eq_iff t.id id)

-- A refresh that succeeds has written the task, and the task can be loaded afterwards.
loaded_after :
    (io io' : Io) (id : String) (u t x : TaskSession) (s : HarnessStore)
    → IsWellFormed s
    → get id s.tasks ≡ some u
    → x.id ≡ u.id
    → (io'.reads id && io'.parses id) ≡ true
    → (save_and_return io s x).1 ≡ ok t
    → (t ≡ x) × (load_task io' id (save_and_return io s x).0 ≡ ok x)
unfolding save_task
loaded_after io io' id u t x s f here same r h = elim (Bool-cases io.saves_task) [
  | inr n ↦ absurd (ground arith)
  | inl y ↦
      let own = same ∙ get-named id u s f here in
      let back = load_saved io io' id x s own y r in
      (ground arith, unfold save_task in ground (arith, back))
]

-- After a refresh of the host's task, `check_baseline` accepts the same workspace, also when the
-- branch or the head has moved.
pub refresh_host-check :
    (v w : Env) (id : String) (s : HarnessStore) (t : TaskSession)
    → IsWellFormed s
    → (refresh_host_expected_state v id s).1 ≡ ok t
    → w.observed ≡ v.observed
    → (w.io.reads id && w.io.parses id) ≡ true
    → check_baseline w id (refresh_host_expected_state v id s).0 ≡ ok tt
unfolding refresh_host_expected_state check_baseline
refresh_host-check v w id s t f h same r = elim (load_task-cases v.io id s) [
  | inr (e, bad) ↦ absurd (ground arith)
  | inl (u, here, loaded) ↦
      let x = refreshed_host v u in
      let wrote : (save_and_return v.io s x).1 ≡ ok t = ground arith in
      let back = (loaded_after v.io w.io id u t x s f here refl r wrote).1 in
      rw (loaded, back, same)
        (ground (
          arith,
          opt_eq_iff v.observed.branch v.observed.branch,
          opt_eq_iff v.observed.head v.observed.head,
          eq_iff v.observed.worktree_fingerprint v.observed.worktree_fingerprint,
        ))
]

-- After a refresh of a task, `check_baseline` accepts the same workspace exactly if its branch and
-- its head are the ones that the task began with.
pub refresh-check_iff :
    (v w : Env) (id : String) (s : HarnessStore) (t : TaskSession)
    → IsWellFormed s
    → (refresh_expected_state v id s).1 ≡ ok t
    → w.observed ≡ v.observed
    → (w.io.reads id && w.io.parses id) ≡ true
    → (check_baseline w id (refresh_expected_state v id s).0 ≡ ok tt)
      ↔ ((v.observed.branch ≡ t.baseline.branch) × (v.observed.head ≡ t.baseline.head))
unfolding refresh_expected_state check_baseline
refresh-check_iff v w id s t f h same r = elim (load_task-cases v.io id s) [
  | inr (e, bad) ↦ absurd (ground arith)
  | inl (u, here, loaded) ↦
      let x = refreshed v u in
      let wrote : (save_and_return v.io s x).1 ≡ ok t = ground arith in
      let (is_x, back) = loaded_after v.io w.io id u t x s f here refl r wrote in
      rw (loaded, back, same, is_x)
        (ground (
          arith,
          opt_eq_iff v.observed.branch u.baseline.branch,
          opt_eq_iff v.observed.head u.baseline.head,
          eq_iff v.observed.worktree_fingerprint v.observed.worktree_fingerprint,
        ))
]
