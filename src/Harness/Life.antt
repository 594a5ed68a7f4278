-- ===== src/Harness/Life.antt =====
-- The life of one task over histories (src-tauri/src/harness/model.rs, `can_transition_to`, and
-- `transition` of src-tauri/src/harness/state.rs).
use gpt_tools_mcp.Prelude.{
  String, ◌≡◌, ◌≢◌, ◌⊎◌, inl, inr, refl, sym, subst, ◌∙◌, true, false, Bool, some, List, [], ◌∷◌,
  arith, All, Any, eq_iff, Bool-cases, str_eq,
}
use gpt_tools_mcp.Prelude.Assoc.{get, insert, get-insert}
use gpt_tools_mcp.Harness.{
  TaskStatus, TaskSession, verifying, completed, is_writable, can_transition_to,
}
use gpt_tools_mcp.Harness.Store.{HarnessStore}
use gpt_tools_mcp.Harness.State.{new_task}
use gpt_tools_mcp.Harness.Trace.{Op, starts, transitions, step, run, no_files}
use gpt_tools_mcp.Harness.Names.{IsWellFormed, get-named, step-IsNamed, no_files-IsWellFormed}
use gpt_tools_mcp.Harness.Effect.{kept, started, rewritten, moved, step-Effect}

-- The step that asks for the verification of the task `id`.
abbrev pub Verifies : String → Op → Type 0
Verifies id (transitions v k next) = (k ≡ id) × (next ≡ verifying)
Verifies id _ = ⊥

-- The statuses that a task has before it is verified for the first time.
unfoldable is_unverified : TaskStatus → Bool
is_unverified verifying = false
is_unverified completed = false
is_unverified _ = true

abbrev AllUnverified : String → HarnessStore → Type 0
AllUnverified id s = (t : TaskSession) → get id s.tasks ≡ some t → is_unverified t.status ≡ true

next-unverified :
    (a b : TaskStatus)
    → can_transition_to a b ≡ true
    → is_unverified a ≡ true
    → (b ≡ verifying) ⊎ (is_unverified b ≡ true)
unfolding can_transition_to is_unverified
next-unverified a b h k = ground arith

put-unverified :
    (id : String) (t : TaskSession) (s s' : HarnessStore)
    → AllUnverified id s
    → s'.tasks ≡ insert t.id t s.tasks
    → (t.id ≡ id → is_unverified t.status ≡ true)
    → AllUnverified id s'
put-unverified id t s s' h e own x here =
    let now : get id (insert t.id t s.tasks) ≡ some x = rw⁻¹ e here in
    elim (Bool-cases (str_eq t.id id)) [
      | inl y ↦
          let same = (eq_iff t.id id).0 y in ground (arith, own same, get-insert t.id id t s.tasks)
      | inr n ↦ ground (arith, h x, get-insert t.id id t s.tasks)
    ]

step-unverified :
    (id : String) (s : HarnessStore) (op : Op)
    → IsWellFormed s
    → AllUnverified id s
    → Verifies id op ⊎ AllUnverified id (step s op)
step-unverified id s op v h = elim (step-Effect s op) [
  | kept e ↦ inr (λ t here. h t (rw⁻¹ e here))
  | started w objective same idle e ↦ inr (
      put-unverified id (new_task w objective) s (step s op) h e
        (λ own. unfold is_unverified in refl))
  | rewritten k u t here same status e ↦ inr (
      put-unverified id t s (step s op) h e
        (λ own. rw status (h u (rw⁻¹ (sym (get-named k u s v here) ∙ (sym same ∙ own)) here))))
  | moved w k next u t same here allowed id_same status e ↦
      let named = get-named k u s v here in
      elim (Bool-cases (str_eq k id)) [
        | inl y ↦
            let own = (eq_iff k id).0 y in
            elim (next-unverified u.status next allowed (h u (rw⁻¹ own here))) [
              | inl verified ↦ inl (subst (Verifies id) (sym same) (own, verified))
              | inr unv ↦ inr (put-unverified id t s (step s op) h e (λ i. rw status unv))
            ]
        | inr n ↦ inr (
            put-unverified id t s (step s op) h e
              (λ i. absurd (ground (arith, eq_iff k id, named, id_same, i))))
      ]
]

run-unverified :
    (id : String) (s : HarnessStore) (ops : List Op)
    → IsWellFormed s
    → AllUnverified id s
    → Any (Verifies id) ops ⊎ AllUnverified id (run s ops)
unfolding run
run-unverified id s [] v h = inr h
run-unverified id s (op ∷ ops) v h = elim (step-unverified id s op v h) [
  | inl y ↦ inl (inl y)
  | inr n ↦ elim (run-unverified id (step s op) ops (step-IsNamed s op v) n) [
    | inl y ↦ inl (inr y)
    | inr k ↦ inr k
  ]
]

-- A task is completed only if it was put under verification before: of any operations from an
-- empty workspace that leave it completed, one is its transition to `verifying`.
pub completed_needs_verifying :
    (id : String) (ops : List Op) (t : TaskSession)
    → get id (run no_files ops).tasks ≡ some t
    → t.status ≡ completed
    → Any (Verifies id) ops
completed_needs_verifying id ops t here done =
    elim (run-unverified id no_files ops no_files-IsWellFormed (λ x e. absurd (unfold get in cc))) [
      | inl y ↦ y
      | inr n ↦ absurd (unfold is_unverified in ground (arith, n t here, done))
    ]

-- A later task does not draw the same id.
abbrev pub IsNewTask : String → Op → Type 0
IsNewTask id (starts v objective) = v.uuid ≢ id
IsNewTask id _ = Unit

leaves-writable : (a b : TaskStatus) → can_transition_to a b ≡ true → is_writable a ≡ true
unfolding can_transition_to is_writable
leaves-writable a b h = ground arith

abbrev pub Rests : String → TaskStatus → HarnessStore → Type 0
Rests id a s = (t : TaskSession) × (get id s.tasks ≡ some t) × (t.status ≡ a)

step-Rests :
    (id : String) (a : TaskStatus) (s : HarnessStore) (op : Op)
    → IsWellFormed s
    → is_writable a ≡ false
    → IsNewTask id op
    → Rests id a s
    → Rests id a (step s op)
step-Rests id a s op v final new (t, here, rests) = elim (step-Effect s op) [
  | kept e ↦ (t, rw e here, rests)
  | started w objective same idle e ↦
      let other : w.uuid ≢ id = subst (IsNewTask id) same new in
      (
        t,
        rw e
            (ground (arith, get-insert w.uuid id (new_task w objective) s.tasks, eq_iff w.uuid id)),
        rests,
      )
  | rewritten k u t' there same status e ↦
      let named = get-named k u s v there in
      elim (Bool-cases (str_eq t'.id id)) [
        | inl y ↦ (
          t',
          rw e (ground (arith, get-insert t'.id id t' s.tasks)),
          ground (arith, eq_iff t'.id id, named, same, status),
        )
        | inr n ↦ (t, rw e (ground (arith, get-insert t'.id id t' s.tasks)), rests)
      ]
  | moved w k next u t' same there allowed id_same status e ↦
      let named = get-named k u s v there in
      let lively = leaves-writable u.status next allowed in
      elim (Bool-cases (str_eq t'.id id)) [
        | inl y ↦ absurd (ground (arith, eq_iff t'.id id, named, id_same, lively))
        | inr n ↦ (t, rw e (ground (arith, get-insert t'.id id t' s.tasks)), rests)
      ]
]

-- A task that is completed or rolled back keeps its status for good: no operation changes it, as
-- long as no later task draws the same id.
pub finished_stays :
    (id : String) (a : TaskStatus) (s : HarnessStore) (ops : List Op)
    → IsWellFormed s
    → is_writable a ≡ false
    → All (IsNewTask id) ops
    → Rests id a s
    → Rests id a (run s ops)
unfolding run
finished_stays id a s [] v final new rests = rests
finished_stays id a s (op ∷ ops) v final new rests =
    finished_stays id a (step s op) ops (step-IsNamed s op v) final new.1
      (step-Rests id a s op v final new.0 rests)
