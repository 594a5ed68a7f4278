-- ===== src/Approval/OneShot.antt =====
-- An approval is good for one use (src-tauri/src/security/approval.rs).
use gpt_tools_mcp.Prelude.{
  ℕ, ◌-◌, ◌<◌, String, ◌≡◌, ◌≢◌, ◌↔◌, refl, Bool, true, false, List, [], ◌∷◌, All, Option, none,
  some, arith, eq_iff, if◌then◌else◌,
}
use gpt_tools_mcp.Prelude.Assoc.{get, get-insert}
use gpt_tools_mcp.Json.{Value}
use gpt_tools_mcp.Approval.{
  Platform, Record, ApprovalScope, approved, consumed, is_terminal, scope_eq, ttl,
}
use gpt_tools_mcp.Approval.Fingerprint.{fingerprint_of}
use gpt_tools_mcp.Approval.Store.{ApprovalStore, ok, err, store_unavailable, expire, cleanup_locked}
use gpt_tools_mcp.Approval.Decide.{
  on_record, with_record, decide_record, consume, consume_record, launch_failed_record,
}
use gpt_tools_mcp.Approval.Trace.{Op, requests, decides, consumes, step, run}
use gpt_tools_mcp.Approval.Invariant.{IsWellFormed, step-IsWellFormed, run-IsWellFormed}
use gpt_tools_mcp.Approval.Entries.{At, cleaned-At}
use gpt_tools_mcp.Approval.Kept.{IsKept, Allows, run-At}

pub scope_eq_iff : (a b : ApprovalScope) → (scope_eq a b ≡ true) ↔ (a ≡ b)
scope_eq_iff a b = ground (
  arith,
  eq_iff a.context b.context,
  eq_iff a.task b.task,
  eq_iff a.execution_root b.execution_root,
  eq_iff a.policy_revision b.policy_revision,
)

-- What a record must be for `consume` to succeed on it.
pub record IsUsable (p : Platform) (scope : ApprovalScope) (tool : String) (args : Value)
    (later : ℕ) (r : Record) : Type 0 where
  pub granted : r.decision ≡ approved
  pub same_scope : r.scope ≡ scope
  pub same_fingerprint : r.fingerprint ≡ fingerprint_of p tool args
  pub alive : later - r.created < ttl

module _ (p : Platform) (id : String) (scope : ApprovalScope) (tool : String) (args : Value) where
  consume_record-IsUsable :
      (later : ℕ) (r : Record)
      → (consume_record p scope tool args later id r).1 ≡ ok tt
      → IsUsable p scope tool args later r
  unfolding consume_record
  consume_record-IsUsable later r h = ground (
    arith,
    eq_iff r.scope.context scope.context,
    scope_eq_iff r.scope scope,
    eq_iff r.fingerprint (fingerprint_of p tool args),
  )

  consume_record-ok :
      (later : ℕ) (r : Record)
      → IsUsable p scope tool args later r
      → consume_record p scope tool args later id r ≡ (record r { decision = consumed }, ok tt)
  unfolding consume_record
  consume_record-ok later r u = ground (
    arith,
    eq_iff r.scope.context scope.context,
    scope_eq_iff r.scope scope,
    eq_iff r.fingerprint (fingerprint_of p tool args),
  )

  -- `consume` succeeds exactly when the lock is sound and the clean-up leaves an approved record of
  -- that id, of the same scope and fingerprint, that is younger than its time to live.
  pub consume-ok_iff :
      (now later : ℕ) (s : ApprovalStore)
      → ((consume p id scope tool args now later s).1 ≡ ok tt) ↔ (
          (s.records_poisoned ≡ false)
          × ((r : Record) × (get id (cleanup_locked now s.records) ≡ some r)
              × IsUsable p scope tool args later r))
  unfolding consume with_record
  consume-ok_iff now later s = (
    go s.records_poisoned (get id (cleanup_locked now s.records)),
    λ (u, (r, e, w)). ground (arith, consume_record-ok later r w),
  )
    where
      go :
          (poisoned : Bool) (o : Option Record)
          → (if poisoned
              then (s, err store_unavailable)
              else on_record id now s (consume_record p scope tool args later id) o).1
            ≡ ok tt
          → (poisoned ≡ false) × ((r : Record) × (o ≡ some r) × IsUsable p scope tool args later r)
      go true o h = absurd (cc)
      go false none h = absurd (cc)
      go false (some r) h = (refl, (r, refl, consume_record-IsUsable later r h))

abbrev pub IsSpent : Record → Type 0
IsSpent r = is_terminal r.decision ≡ true

IsSpent-IsKept : (p : Platform) (id : String) → IsKept p id IsSpent
unfolding expire consume_record launch_failed_record
IsSpent-IsKept p id = record {
  expires = λ now r h. ground arith;
  consumed = λ scope tool args later r h. ground arith;
  launched = λ scope tool args later r h. ground arith;
}

decide_record-IsSpent :
    (p : Platform) (id : String) (approve : Bool) (later last : ℕ) (r : Record)
    → IsSpent r
    → IsSpent (decide_record p id approve later last r).0
unfolding decide_record
decide_record-IsSpent p id approve later last r h = ground arith

-- A later request does not draw the same UUID.
abbrev pub IsFresh : String → Op → Type 0
IsFresh id (requests q) = q.uuid ≢ id
IsFresh id _ = Unit

fresh-Allows : (p : Platform) (id : String) (op : Op) → IsFresh id op → Allows p id IsSpent op
fresh-Allows p id (requests q) f = λ same. absurd (f same)
fresh-Allows p id (decides j approve now later last) f =
    λ same r h. decide_record-IsSpent p j approve later last r h
fresh-Allows p id _ f = tt

fresh-All :
    (p : Platform) (id : String) (ops : List Op)
    → All (IsFresh id) ops
    → All (Allows p id IsSpent) ops
fresh-All p id [] f = tt
fresh-All p id (op ∷ ops) f = (fresh-Allows p id op f.0, fresh-All p id ops f.1)

consume-IsSpent :
    (p : Platform) (id : String) (scope : ApprovalScope) (tool : String) (args : Value)
    (now later : ℕ) (s : ApprovalStore)
    → (consume p id scope tool args now later s).1 ≡ ok tt
    → At id IsSpent (consume p id scope tool args now later s).0
unfolding consume with_record
consume-IsSpent p id scope tool args now later s h =
    let (sound, (r, e, u)) = (consume-ok_iff p id scope tool args now later s).0 h in
    λ x f. ground (
      arith,
      consume_record-ok p id scope tool args later r u,
      get-insert id id (record r { decision = consumed }) (cleanup_locked now s.records),
      eq_iff id id,
    )

spent-not_consumable :
    (p : Platform) (id : String) (scope : ApprovalScope) (tool : String) (args : Value)
    (now later : ℕ) (s : ApprovalStore)
    → IsWellFormed s
    → At id IsSpent s
    → (consume p id scope tool args now later s).1 ≢ ok tt
spent-not_consumable p id scope tool args now later s v h e =
    let (sound, (r, f, u)) = (consume-ok_iff p id scope tool args now later s).0 e in
    ground (arith, cleaned-At id IsSpent now s v ((IsSpent-IsKept p id).expires now) h r f)

-- An approval that was consumed is never consumed again: whatever operations follow, by whatever
-- caller, as long as no later request draws the same UUID.
pub consume_once :
    (p : Platform) (id : String) (scope scope' : ApprovalScope) (tool tool' : String)
    (args args' : Value) (now later now' later' : ℕ) (s : ApprovalStore) (ops : List Op)
    → IsWellFormed s
    → (consume p id scope tool args now later s).1 ≡ ok tt
    → All (IsFresh id) ops
    → (consume p id scope' tool' args' now' later'
        (run p (consume p id scope tool args now later s).0 ops)).1
      ≢ ok tt
consume_once p id scope scope' tool tool' args args' now later now' later' s ops v h f =
    let s' = (consume p id scope tool args now later s).0 in
    let v' : IsWellFormed s' =
      unfold step in step-IsWellFormed p s (consumes id scope tool args now later) v in
    spent-not_consumable p id scope' tool' args' now' later' (run p s' ops)
      (run-IsWellFormed p s' ops v')
      (run-At p id IsSpent s' ops v' (IsSpent-IsKept p id) (fresh-All p id ops f)
        (consume-IsSpent p id scope tool args now later s h))
