-- ===== src/Approval/Invariant.antt =====
-- Well-formedness of the approval store (src-tauri/src/security/approval.rs): distinct ids and the
-- capacity.
use gpt_tools_mcp.Prelude.{
  ℕ, ◌≤◌, String, ◌≡◌, refl, Bool, true, false, not, List, [], ◌∷◌, Option, none, some, arith,
  str_eq, length, length-retain-le, retain, if◌then◌else◌,
}
use gpt_tools_mcp.Prelude.Assoc.{
  get, insert, Distinct, Distinct-retain, Distinct-insert, length-insert-le, length-insert_of_some,
}
use gpt_tools_mcp.Approval.{Platform, Record, capacity}
use gpt_tools_mcp.Approval.Store.{
  ApprovalStore, Result, err, store_unavailable, Request, default, cleaned, cleanup_locked,
  new_record, request_with_details, create, status,
}
use gpt_tools_mcp.Approval.Decide.{
  on_record, with_record, decide, decide_record, consume, consume_record, mark_launch_failed,
  launch_failed_record,
}
use gpt_tools_mcp.Approval.Queue.{pending_list, remove_context, remove_execution_root, is_at_root}
use gpt_tools_mcp.Approval.Cleanup.{Distinct-cleanup, length-cleanup-le}
use gpt_tools_mcp.Approval.Trace.{
  Op, requests, reads_status, decides, consumes, marks_launch_failed, lists_pending,
  removes_context, removes_root, step, run,
}

pub record IsWellFormed (s : ApprovalStore) : Type 0 where
  pub distinct : Distinct s.records
  pub bounded : length s.records ≤ capacity

-- To prove `P` of the store that a record's operation leaves.
pub with_record_cases {ℓ κ} :
    {A : Type ℓ} (P : ApprovalStore → Type κ) (id : String) (now : ℕ) (s : ApprovalStore)
    (act : Record → Record × Result A)
    → P s
    → P (cleaned now s)
    → ((r : Record)
        → get id (cleanup_locked now s.records) ≡ some r
        → P (record s { records = insert id (act r).0 (cleanup_locked now s.records) }))
    → P (with_record id now s act).0
unfolding with_record
with_record_cases {A = A} P id now s act same clean found =
    go s.records_poisoned (get id (cleanup_locked now s.records)) refl
  where
    go :
        (poisoned : Bool) (o : Option Record)
        → get id (cleanup_locked now s.records) ≡ o
        → P (if poisoned then (s, err store_unavailable) else on_record id now s act o).0
    go true o e = same
    go false none e = clean
    go false (some r) e = found r e

pub cleaned-IsWellFormed :
    (now : ℕ) (s : ApprovalStore) → IsWellFormed s → IsWellFormed (cleaned now s)
cleaned-IsWellFormed now s v = record {
  distinct = Distinct-cleanup now s.records v.distinct;
  bounded = omega (arith, length-cleanup-le now s.records, v.bounded);
}

with_record-IsWellFormed {ℓ} :
    {A : Type ℓ} (id : String) (now : ℕ) (s : ApprovalStore) (act : Record → Record × Result A)
    → IsWellFormed s
    → IsWellFormed (with_record id now s act).0
with_record-IsWellFormed id now s act v =
    let w = cleaned-IsWellFormed now s v in
    with_record_cases IsWellFormed id now s act v w λ r e. record {
      distinct = Distinct-insert id (act r).0 (cleanup_locked now s.records) w.distinct;
      bounded =
          omega (
            arith,
            w.bounded,
            length-insert_of_some id (act r).0 r (cleanup_locked now s.records) e,
          );
    }

create-IsWellFormed :
    (p : Platform) (q : Request) (s : ApprovalStore)
    → IsWellFormed s
    → IsWellFormed (create p q s).0
unfolding create
create-IsWellFormed p q s v =
    let row = new_record p q s.next_sequence in
    ground (
      arith,
      v,
      Distinct-insert q.uuid row s.records v.distinct,
      length-insert-le q.uuid row s.records,
    )

request-IsWellFormed :
    (p : Platform) (q : Request) (s : ApprovalStore)
    → IsWellFormed s
    → IsWellFormed (request_with_details p q s).0
unfolding request_with_details
request-IsWellFormed p q s v = ground (
  arith,
  v,
  cleaned-IsWellFormed q.now s v,
  create-IsWellFormed p q (cleaned q.now s) (cleaned-IsWellFormed q.now s v),
)

retained-IsWellFormed :
    (keep : Record → Bool) (s : ApprovalStore)
    → IsWellFormed s
    → IsWellFormed (record s { records = retain (λ e. keep e.1) s.records })
retained-IsWellFormed keep s v = record {
  distinct = Distinct-retain keep s.records v.distinct;
  bounded =
      omega (arith, v.bounded, length-retain-le (λ (e : String × Record). keep e.1) s.records);
}

-- Every operation keeps the ids of the records distinct and their number within the capacity.
pub step-IsWellFormed :
    (p : Platform) (s : ApprovalStore) (op : Op) → IsWellFormed s → IsWellFormed (step p s op)
unfolding step
step-IsWellFormed p s (requests q) v = request-IsWellFormed p q s v
step-IsWellFormed p s (reads_status context id now later) v =
    unfold status in ground (arith, v, cleaned-IsWellFormed now s v)
step-IsWellFormed p s (decides id approve now later last) v =
    unfold decide in with_record-IsWellFormed id now s (decide_record p id approve later last) v
step-IsWellFormed p s (consumes id scope tool args now later) v =
    unfold consume in
    with_record-IsWellFormed id now s (consume_record p scope tool args later id) v
step-IsWellFormed p s (marks_launch_failed id scope tool args now later) v =
    unfold mark_launch_failed in
    with_record-IsWellFormed id now s (launch_failed_record p scope tool args later id) v
step-IsWellFormed p s (lists_pending now) v =
    unfold pending_list in ground (arith, v, cleaned-IsWellFormed now s v)
step-IsWellFormed p s (removes_context context now) v =
    unfold remove_context in
    ground (
      arith,
      v,
      retained-IsWellFormed (λ r. not (str_eq r.scope.context context)) (cleaned now s)
          (cleaned-IsWellFormed now s v),
    )
step-IsWellFormed p s (removes_root root now) v =
    unfold remove_execution_root in
    ground (
      arith,
      v,
      retained-IsWellFormed (λ r. not (is_at_root p root r)) (cleaned now s)
          (cleaned-IsWellFormed now s v),
    )

-- Every sequence of operations keeps the ids of the records distinct and their number within the
-- capacity.
pub run-IsWellFormed :
    (p : Platform) (s : ApprovalStore) (ops : List Op) → IsWellFormed s → IsWellFormed (run p s ops)
unfolding run
run-IsWellFormed p s [] v = v
run-IsWellFormed p s (op ∷ ops) v =
    run-IsWellFormed p (step p s op) ops (step-IsWellFormed p s op v)

pub default-IsWellFormed : IsWellFormed default
default-IsWellFormed = record { distinct = tt; bounded = omega arith }
