-- ===== src/Approval/Kept.antt =====
-- The predicates on a record that all operations of the approval store keep
-- (src-tauri/src/security/approval.rs).
use gpt_tools_mcp.Prelude.{
  ℕ, String, ◌≡◌, inl, inr, sym, subst, not, List, [], ◌∷◌, All, arith, str_eq, Bool-cases,
}
use gpt_tools_mcp.Json.{Value}
use gpt_tools_mcp.Approval.{Platform, Record, ApprovalScope}
use gpt_tools_mcp.Approval.Store.{ApprovalStore, cleaned, expire, new_record, status}
use gpt_tools_mcp.Approval.Decide.{
  decide, decide_record, consume, consume_record, mark_launch_failed, launch_failed_record,
}
use gpt_tools_mcp.Approval.Queue.{pending_list, remove_context, remove_execution_root, is_at_root}
use gpt_tools_mcp.Approval.Trace.{
  Op, requests, reads_status, decides, consumes, marks_launch_failed, lists_pending,
  removes_context, removes_root, step, run,
}
use gpt_tools_mcp.Approval.Invariant.{IsWellFormed, cleaned-IsWellFormed, step-IsWellFormed}
use gpt_tools_mcp.Approval.Entries.{At, cleaned-At, with_record-At, retained-At, request-At}

-- A predicate that the clean-up and the two uses of an approval keep.
pub record IsKept (p : Platform) (id : String) (Q : Record → Type 0) : Type 0 where
  pub expires : (now : ℕ) (r : Record) → Q r → Q (expire now r)
  pub consumed :
      (scope : ApprovalScope) (tool : String) (args : Value) (later : ℕ) (r : Record)
      → Q r
      → Q (consume_record p scope tool args later id r).0
  pub launched :
      (scope : ApprovalScope) (tool : String) (args : Value) (later : ℕ) (r : Record)
      → Q r
      → Q (launch_failed_record p scope tool args later id r).0

-- What is asked of the steps that make or decide the record of `id`.
abbrev pub Allows : Platform → String → (Record → Type 0) → Op → Type 0
Allows p id Q (requests q) = q.uuid ≡ id → (n : ℕ) → Q (new_record p q n)
Allows p id Q (decides j approve now later last) =
    j ≡ id → (r : Record) → Q r → Q (decide_record p j approve later last r).0
Allows p id Q _ = Unit

pub step-At :
    (p : Platform) (id : String) (Q : Record → Type 0) (s : ApprovalStore) (op : Op)
    → IsWellFormed s
    → IsKept p id Q
    → Allows p id Q op
    → At id Q s
    → At id Q (step p s op)
unfolding step
step-At p id Q s (requests q) v k a h = request-At id Q p q s v (k.expires q.now) a h
step-At p id Q s (reads_status context j now later) v k a h =
    let c = cleaned-At id Q now s v (k.expires now) h in
    unfold status in
    λ r e. elim (Bool-cases s.records_poisoned) [
      | inl bad ↦ h r (ground arith)
      | inr good ↦ c r (ground arith)
    ]
step-At p id Q s (decides j approve now later last) v k a h =
    unfold decide in
    with_record-At id Q j now s (decide_record p j approve later last) v (k.expires now)
      (λ r same. a same r) h
step-At p id Q s (consumes j scope tool args now later) v k a h =
    unfold consume in
    with_record-At id Q j now s (consume_record p scope tool args later j) v (k.expires now)
      (λ r same q.
        subst (λ x. Q (consume_record p scope tool args later x r).0) (sym same)
          (k.consumed scope tool args later r q))
      h
step-At p id Q s (marks_launch_failed j scope tool args now later) v k a h =
    unfold mark_launch_failed in
    with_record-At id Q j now s (launch_failed_record p scope tool args later j) v (k.expires now)
      (λ r same q.
        subst (λ x. Q (launch_failed_record p scope tool args later x r).0) (sym same)
          (k.launched scope tool args later r q))
      h
step-At p id Q s (lists_pending now) v k a h =
    let c = cleaned-At id Q now s v (k.expires now) h in
    unfold pending_list in
    λ r e. elim (Bool-cases s.records_poisoned) [
      | inl bad ↦ h r (ground arith)
      | inr good ↦ c r (ground arith)
    ]
step-At p id Q s (removes_context context now) v k a h =
    let c = cleaned-At id Q now s v (k.expires now) h in
    let d =
      retained-At id Q (λ r. not (str_eq r.scope.context context)) (cleaned now s)
        (cleaned-IsWellFormed now s v) c in
    unfold remove_context in
    λ r e. elim (Bool-cases s.records_poisoned) [
      | inl bad ↦ h r (ground arith)
      | inr good ↦ d r (ground arith)
    ]
step-At p id Q s (removes_root root now) v k a h =
    let c = cleaned-At id Q now s v (k.expires now) h in
    let d =
      retained-At id Q (λ r. not (is_at_root p root r)) (cleaned now s)
        (cleaned-IsWellFormed now s v) c in
    unfold remove_execution_root in
    λ r e. elim (Bool-cases s.records_poisoned) [
      | inl bad ↦ h r (ground arith)
      | inr good ↦ d r (ground arith)
    ]

pub run-At :
    (p : Platform) (id : String) (Q : Record → Type 0) (s : ApprovalStore) (ops : List Op)
    → IsWellFormed s
    → IsKept p id Q
    → All (Allows p id Q) ops
    → At id Q s
    → At id Q (run p s ops)
unfolding run
run-At p id Q s [] v k a h = h
run-At p id Q s (op ∷ ops) v k a h =
    run-At p id Q (step p s op) ops (step-IsWellFormed p s op v) k a.1
      (step-At p id Q s op v k a.0 h)
