-- ===== src/Approval/Granted.antt =====
-- An approval is usable only after the desktop granted it (src-tauri/src/security/approval.rs).
use gpt_tools_mcp.Prelude.{
  ℕ, String, ◌≡◌, ◌⊎◌, inl, inr, refl, Bool, true, false, List, [], ◌∷◌, Any, arith, str_eq, eq_iff,
  Bool-cases,
}
use gpt_tools_mcp.Prelude.Assoc.{get}
use gpt_tools_mcp.Json.{Value}
use gpt_tools_mcp.Approval.{Platform, Record, ApprovalScope, ApprovalDecision, approved}
use gpt_tools_mcp.Approval.Store.{ApprovalStore, ok, default, expire}
use gpt_tools_mcp.Approval.Decide.{decide_record, consume, consume_record, launch_failed_record}
use gpt_tools_mcp.Approval.Trace.{Op, requests, decides, step, run}
use gpt_tools_mcp.Approval.Invariant.{
  IsWellFormed, step-IsWellFormed, run-IsWellFormed, default-IsWellFormed,
}
use gpt_tools_mcp.Approval.Entries.{At, cleaned-At}
use gpt_tools_mcp.Approval.Kept.{IsKept, Allows, step-At}
use gpt_tools_mcp.Approval.OneShot.{consume-ok_iff}

-- The step by which the desktop grants the request `id`.
abbrev pub Grants : String → Op → Type 0
Grants id (decides j true now later last) = j ≡ id
Grants id _ = ⊥

abbrev is_approved : ApprovalDecision → Bool
is_approved approved = true
is_approved _ = false

abbrev IsNotApproved : Record → Type 0
IsNotApproved r = is_approved r.decision ≡ false

IsNotApproved-IsKept : (p : Platform) (id : String) → IsKept p id IsNotApproved
unfolding expire consume_record launch_failed_record
IsNotApproved-IsKept p id = record {
  expires = λ now r h. ground arith;
  consumed = λ scope tool args later r h. ground arith;
  launched = λ scope tool args later r h. ground arith;
}

deny-IsNotApproved :
    (p : Platform) (id : String) (later last : ℕ) (r : Record)
    → IsNotApproved r
    → IsNotApproved (decide_record p id false later last r).0
unfolding decide_record
deny-IsNotApproved p id later last r h = ground arith

-- A step grants the request, or leaves it ungranted.
Grants-or-Allows :
    (p : Platform) (id : String) (op : Op) → Grants id op ⊎ Allows p id IsNotApproved op
Grants-or-Allows p id (requests q) = inr (λ same n. refl)
Grants-or-Allows p id (decides j true now later last) = elim (Bool-cases (str_eq j id)) [
  | inl k ↦ inl ((eq_iff j id).0 k)
  | inr k ↦ inr (λ same r h. absurd (ground (arith, eq_iff j id)))
]
Grants-or-Allows p id (decides j false now later last) =
    inr (λ same r h. deny-IsNotApproved p j later last r h)
Grants-or-Allows p id _ = inr tt

ungranted-run :
    (p : Platform) (id : String) (s : ApprovalStore) (ops : List Op)
    → IsWellFormed s
    → At id IsNotApproved s
    → Any (Grants id) ops ⊎ At id IsNotApproved (run p s ops)
unfolding run
ungranted-run p id s [] v h = inr h
ungranted-run p id s (op ∷ ops) v h = elim (Grants-or-Allows p id op) [
  | inl g ↦ inl (inl g)
  | inr a ↦
      elim (ungranted-run p id (step p s op) ops (step-IsWellFormed p s op v)
        (step-At p id IsNotApproved s op v (IsNotApproved-IsKept p id) a h)) [
          | inl g ↦ inl (inr g)
          | inr n ↦ inr n
        ]
]

-- From an empty store, after any operations, `consume` succeeds only for a request that the
-- desktop granted by `decide(id, true)` among those operations.
pub consume_needs_grant :
    (p : Platform) (id : String) (scope : ApprovalScope) (tool : String) (args : Value)
    (now later : ℕ) (ops : List Op)
    → (consume p id scope tool args now later (run p default ops)).1 ≡ ok tt
    → Any (Grants id) ops
consume_needs_grant p id scope tool args now later ops h =
    elim (ungranted-run p id default ops default-IsWellFormed (λ r e. absurd (unfold get in cc))) [
      | inl g ↦ g
      | inr n ↦
          let s = run p default ops in
          let (sound, (r, f, u)) = (consume-ok_iff p id scope tool args now later s).0 h in
          let left =
            cleaned-At id IsNotApproved now s (run-IsWellFormed p default ops default-IsWellFormed)
              ((IsNotApproved-IsKept p id).expires now) n r f in
          absurd (ground (arith, left))
    ]
