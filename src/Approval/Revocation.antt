-- ===== src/Approval/Revocation.antt =====
-- What `remove_execution_root` revokes (src-tauri/src/security/approval.rs).
use gpt_tools_mcp.Prelude.{
  ℕ, ◌+◌, String, ◌≡◌, ◌≢◌, false, not, none, some, arith, if◌then◌else◌, Option-cases, inl, inr,
  length, length-retain-le, List, [], ◌∷◌, All, Bool-cases,
}
use gpt_tools_mcp.Prelude.Assoc.{get, get-retain-none, get-retain-some}
use gpt_tools_mcp.Json.{Value}
use gpt_tools_mcp.Approval.{Platform, Record, ApprovalScope}
use gpt_tools_mcp.Approval.Store.{ApprovalStore, cleanup_locked, ok, expire, new_record}
use gpt_tools_mcp.Approval.Decide.{consume, consume_record, launch_failed_record, decide_record}
use gpt_tools_mcp.Approval.Queue.{remove_execution_root, is_at_root, normalized_root}
use gpt_tools_mcp.Approval.Cleanup.{Distinct-cleanup}
use gpt_tools_mcp.Approval.Trace.{Op, requests, decides, removes_root, step, run}
use gpt_tools_mcp.Approval.Invariant.{IsWellFormed, step-IsWellFormed, run-IsWellFormed}
use gpt_tools_mcp.Approval.Kept.{IsKept, Allows, run-At}
use gpt_tools_mcp.Approval.Entries.{At, cleaned-At}
use gpt_tools_mcp.Approval.OneShot.{consume-ok_iff}
use gpt_tools_mcp.Prelude.Text.{codes_eq_iff}

-- A record of another execution root.
abbrev IsAway : Platform → String → Record → Type 0
IsAway p root r = is_at_root p root r ≡ false

is_elsewhere-IsKept : (p : Platform) (root id : String) → IsKept p id (IsAway p root)
unfolding expire consume_record launch_failed_record
is_elsewhere-IsKept p root id = record {
  expires = λ now r h. ground (arith, h);
  consumed = λ scope tool args later r h. ground (arith, h);
  launched = λ scope tool args later r h. ground (arith, h);
}

-- A step that makes no request for the root under the UUID `id`.
abbrev pub IsElsewhere : Platform → String → String → Op → Type 0
IsElsewhere p root id (requests q) =
    q.uuid ≡ id → normalized_root p q.scope.execution_root ≢ normalized_root p root
IsElsewhere p root id _ = Unit

elsewhere-Allows :
    (p : Platform) (root id : String) (op : Op)
    → IsElsewhere p root id op
    → Allows p id (IsAway p root) op
unfolding decide_record
elsewhere-Allows p root id (requests q) h = λ same n.
    elim (Bool-cases (is_at_root p root (new_record p q n))) [
      | inl y ↦ absurd (
          h same (
            (codes_eq_iff (normalized_root p q.scope.execution_root) (normalized_root p root)).0 y))
      | inr n ↦ n
    ]
elsewhere-Allows p root id (decides j approve now later last) h = λ same r k. ground (arith, k)
elsewhere-Allows p root id _ h = tt

elsewhere-All :
    (p : Platform) (root id : String) (ops : List Op)
    → All (IsElsewhere p root id) ops
    → All (Allows p id (IsAway p root)) ops
elsewhere-All p root id [] h = tt
elsewhere-All p root id (op ∷ ops) h =
    (elsewhere-Allows p root id op h.0, elsewhere-All p root id ops h.1)

module _ (p : Platform) (root : String) (now : ℕ) (s : ApprovalStore) (v : IsWellFormed s)
    (sound : s.records_poisoned ≡ false) where
  -- Of the records that the clean-up leaves, exactly those of the execution root go, the others
  -- stay as they are, and the result counts the ones that went.
  pub remove_execution_root_lem :
      (id : String) (r : Record)
      → get id (cleanup_locked now s.records) ≡ some r
      → (get id (remove_execution_root p root now s).0.records
          ≡ (if is_at_root p root r then none else some r))
        × ((remove_execution_root p root now s).1
              + length (remove_execution_root p root now s).0.records
            ≡ length (cleanup_locked now s.records))
  unfolding remove_execution_root
  remove_execution_root_lem id r here =
      let rs = cleanup_locked now s.records in
      let keep = λ (x : Record). not (is_at_root p root x) in
      (
        ground (arith, get-retain-some keep id r rs (Distinct-cleanup now s.records v.distinct)),
        ground (arith, length-retain-le (λ (e : String × Record). keep e.1) rs),
      )

  removed_root-At :
      (id : String)
      → At id (λ r. is_at_root p root r ≡ false) (remove_execution_root p root now s).0
  unfolding remove_execution_root
  removed_root-At id r e =
      let rs = cleanup_locked now s.records in
      let keep = λ (x : Record). not (is_at_root p root x) in
      elim (Option-cases (get id rs)) [
        | inl n ↦ absurd (ground (arith, get-retain-none keep id rs n))
        | inr (x, n) ↦
            ground (arith, get-retain-some keep id x rs (Distinct-cleanup now s.records v.distinct))
      ]

  -- After a revocation, in a well-formed store whose lock is sound, no approval of the root can be
  -- used, whatever operations come between, as long as no request for the root draws its UUID:
  -- `consume` under a scope whose execution root is the same after normalisation does not succeed.
  pub revoked_root_not_consumable :
      (id : String) (scope : ApprovalScope) (tool : String) (args : Value) (now' later : ℕ)
      (ops : List Op)
      → normalized_root p scope.execution_root ≡ normalized_root p root
      → All (IsElsewhere p root id) ops
      → (consume p id scope tool args now' later
          (run p (remove_execution_root p root now s).0 ops)).1
        ≢ ok tt
  revoked_root_not_consumable id scope tool args now' later ops same others h =
      let s' = (remove_execution_root p root now s).0 in
      let v' : IsWellFormed s' = unfold step in step-IsWellFormed p s (removes_root root now) v in
      let kept = is_elsewhere-IsKept p root id in
      let left =
        run-At p id (IsAway p root) s' ops v' kept (elsewhere-All p root id ops others)
          (removed_root-At id) in
      let (sound', (r, f, u)) =
        (consume-ok_iff p id scope tool args now' later (run p s' ops)).0 h in
      let other =
        cleaned-At id (IsAway p root) now' (run p s' ops) (run-IsWellFormed p s' ops v')
          (kept.expires now') left r f in
      ground (
        arith,
        other,
        u.same_scope,
        codes_eq_iff (normalized_root p r.scope.execution_root) (normalized_root p root),
      )
