-- ===== src/Harness/Check.antt =====
-- The baseline of a task against the workspace (src-tauri/src/harness/state.rs, `check_baseline`,
-- `status`, `refresh_expected_state` and `refresh_host_expected_state`).
use gpt_tools_mcp.Prelude.{
  String, ◌≡◌, ◌⊎◌, ◌↔◌, inl, inr, refl, sym, true, false, Bool, ◌&&◌, Option, none, some, List, [],
  ◌∷◌, arith, Any, map, retain, find, eq_iff, if◌then◌else◌, ◌∙◌, ap,
}
use gpt_tools_mcp.Prelude.Assoc.{get, Distinct}
use gpt_tools_mcp.Harness.{TaskSession, ProjectBaseline, is_writable}
use gpt_tools_mcp.Harness.Store.{
  HarnessStore, HarnessResult, Io, ok, err, load_task, list_tasks, insert_task, sort_tasks,
}
use gpt_tools_mcp.Harness.State.{Env, current_task}
use gpt_tools_mcp.Harness.Baseline.{
  HarnessStatus, opt_eq, check_task, check_baseline, status, status_for,
}
use gpt_tools_mcp.Harness.Names.{IsWellFormed, get-named}

abbrev writes : TaskSession → Bool
writes t = is_writable t.status

abbrev In : TaskSession → List TaskSession → Type 0
In t ts = Any (λ x. x ≡ t) ts

found-writes : (t : TaskSession) (ts : List TaskSession) → find writes ts ≡ some t → writes t ≡ true
found-writes t [] h = absurd (cc)
found-writes t (u ∷ ts) h = ground (arith, found-writes t ts)

found-insert_task :
    (a t : TaskSession) (ts : List TaskSession)
    → find writes (insert_task a ts) ≡ some t
    → (a ≡ t) ⊎ (find writes ts ≡ some t)
unfolding insert_task
found-insert_task a t [] h = ground arith
found-insert_task a t (u ∷ ts) h = ground (arith, found-insert_task a t ts)

found-sort_tasks :
    (t : TaskSession) (ts : List TaskSession) → find writes (sort_tasks ts) ≡ some t → In t ts
unfolding sort_tasks
found-sort_tasks t [] h = absurd (cc)
found-sort_tasks t (a ∷ ts) h = elim (found-insert_task a t (sort_tasks ts) h) [
  | inl e ↦ inl e
  | inr k ↦ inr (found-sort_tasks t ts k)
]

abbrev HasFile : (String → Bool) → TaskSession → List (String × TaskSession) → Type 0
HasFile p t ts = (k : String) × (get k ts ≡ some t) × (p k ≡ true)

later_file :
    (p : String → Bool) (t u : TaskSession) (j : String) (ts : List (String × TaskSession))
    → get j ts ≡ none
    → HasFile p t ts
    → HasFile p t ((j, u) ∷ ts)
unfolding get
later_file p t u j ts n (k, e, q) = (k, ground (arith, eq_iff j k), q)

In-HasFile :
    (p : String → Bool) (t : TaskSession) (ts : List (String × TaskSession))
    → Distinct ts
    → In t (map (λ e. e.1) (retain (λ e. p e.0) ts))
    → HasFile p t ts
unfolding get
In-HasFile p t [] d i = absurd i
In-HasFile p t ((j, u) ∷ ts) d i = go (In-HasFile p t ts d.1) (p j) refl i
  where
    go :
        (In t (map (λ e. e.1) (retain (λ e. p e.0) ts)) → HasFile p t ts)
        → (b : Bool) → p j ≡ b
        → In t
            (map (λ e. e.1) (if b then (j, u) ∷ retain (λ e. p e.0) ts else retain (λ e. p e.0) ts))
        → HasFile p t ((j, u) ∷ ts)
    go rest true y (inl e) = (j, ground (arith, eq_iff j j), y)
    go rest true y (inr k) = later_file p t u j ts d.0 (rest k)
    go rest false n k = later_file p t u j ts d.0 (rest k)

pub opt_eq_iff : (a b : Option String) → (opt_eq a b ≡ true) ↔ (a ≡ b)
opt_eq_iff none none = ground arith
opt_eq_iff none (some b) = ground arith
opt_eq_iff (some a) none = ground arith
opt_eq_iff (some a) (some b) = ground (arith, eq_iff a b)

-- The checks of `status` and of `check_baseline` are the same.
status_for-check_task :
    (current : ProjectBaseline) (t : TaskSession)
    → writes t ≡ true
    → ((status_for current (some t)).writable ≡ true) ↔ (check_task current t ≡ ok tt)
status_for-check_task current t w = ground (
  arith,
  opt_eq_iff t.baseline.branch current.branch,
  opt_eq_iff current.branch t.baseline.branch,
  opt_eq_iff t.baseline.head current.head,
  opt_eq_iff current.head t.baseline.head,
  eq_iff t.expected_fingerprint current.worktree_fingerprint,
  eq_iff current.worktree_fingerprint t.expected_fingerprint,
)

-- The current task is loaded from the file of its id.
pub current_task-load_task :
    (io : Io) (s : HarnessStore) (t : TaskSession)
    → IsWellFormed s
    → current_task io s ≡ ok (some t)
    → (writes t ≡ true) × (load_task io t.id s ≡ ok t)
unfolding current_task list_tasks load_task
current_task-load_task io s t v h =
    let ts = map (λ e. e.1) (retain (λ e. io.reads e.0 && io.parses e.0) s.tasks) in
    let here : find writes (sort_tasks ts) ≡ some t = ground arith in
    let (k, e, q) =
      In-HasFile (λ k. io.reads k && io.parses k) t s.tasks v.distinct
        (found-sort_tasks t ts here) in
    let own = get-named k t s v e in
    (found-writes t (sort_tasks ts) here, rw own (ground (arith, e, q)))

ok_inj : {A : Type 0} {a b : A} → ok a ≡ ok b → a ≡ b
ok_inj e = cc

some_inj : {A : Type 0} {a b : A} → some a ≡ some b → a ≡ b
some_inj e = cc

-- When the workspace has a task to go on with, `status` reports that it may be written exactly if
-- `check_baseline` of that task succeeds in the same surroundings.
pub status-writable_iff :
    (v : Env) (s : HarnessStore) (st : HarnessStatus) (id : String)
    → IsWellFormed s
    → status v s ≡ ok st
    → st.task_id ≡ some id
    → (st.writable ≡ true) ↔ (check_baseline v id s ≡ ok tt)
status-writable_iff v s st id w h named = go (current_task v.io s) refl
  where
    go :
        (r : HarnessResult (Option TaskSession))
        → current_task v.io s ≡ r
        → (st.writable ≡ true) ↔ (check_baseline v id s ≡ ok tt)
    go (err e) k = absurd (unfold status in ground arith)
    go (ok none) k = absurd (unfold status in ground arith)
    go (ok (some t)) k =
        let (lively, loaded) = current_task-load_task v.io s t w k in
        let same = status_for-check_task v.observed t lively in
        let answer : status v s ≡ ok (status_for v.observed (some t)) =
          unfold status in rw k refl in
        let shown : st ≡ status_for v.observed (some t) = ok_inj (sym h ∙ answer) in
        let own : id ≡ t.id = some_inj (sym named ∙ ap (λ x. x.task_id) shown) in
        let checked : check_baseline v id s ≡ check_task v.observed t =
          unfold check_baseline in rw (own, loaded) refl in
        rw (checked, shown) same
