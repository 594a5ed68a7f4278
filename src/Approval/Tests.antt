-- ===== src/Approval/Tests.antt =====
-- A life of one approval, and the theorems on it (src-tauri/src/security/approval.rs).
use Prim.Native.String.{String}
use gpt_tools_mcp.Prelude.{
  ◌≡◌, ◌≢◌, ◌↔◌, refl, true, false, List, [], ◌∷◌, Any, none, some, arith, eq_iff,
}
use gpt_tools_mcp.Prelude.Assoc.{get, insert}
use gpt_tools_mcp.Json.{null, object, bool, field, end}
use gpt_tools_mcp.Approval.{
  Platform, ApprovalScope, ApprovalDecision, Record, approved, consumed, from_secs,
}
use gpt_tools_mcp.Approval.Fingerprint.{fingerprint_of}
use gpt_tools_mcp.Approval.Store.{
  ApprovalStore, Request, ok, default, cleanup_locked, request_with_details, usable_id,
}
use gpt_tools_mcp.Approval.Decide.{consume, mark_launch_failed, decide}
use gpt_tools_mcp.Approval.Queue.{remove_execution_root, normalized_root}
use gpt_tools_mcp.Approval.Trace.{Op, step, requests, decides, consumes, lists_pending, run}
use gpt_tools_mcp.Approval.Invariant.{IsWellFormed, run-IsWellFormed, default-IsWellFormed}
use gpt_tools_mcp.Approval.OneShot.{IsUsable, consume-ok_iff, consume_once}
use gpt_tools_mcp.Approval.Granted.{Grants, consume_needs_grant}
use gpt_tools_mcp.Approval.Revocation.{revoked_root_not_consumable}
use gpt_tools_mcp.Approval.Canonical.{in_object, swapped, fingerprint-same}

abbrev pub platform : Platform
platform = record {
  sha256_hex = λ text. text;
  to_json = λ tool args. tool;
  canonicalize = λ path. none;
}

abbrev pub owner : ApprovalScope
owner = record {
  context = "session-a";
  task = "task";
  execution_root = "D:/project";
  policy_revision = "v1";
}

abbrev stranger : ApprovalScope
stranger = record owner { context = "session-b" }

abbrev pub build : Request
build = record {
  scope = owner;
  tool = "exec_command";
  args = null;
  request_id = none;
  capabilities = [];
  operation_summary = "exec_command: build";
  isolation = "strict";
  now = from_secs 5;
  uuid = "id-1";
  epoch_seconds = 100;
}

abbrev granting : List Op
granting = requests build ∷ decides "id-1" true (from_secs 20) (from_secs 20) (from_secs 20) ∷ []

abbrev granted : ApprovalStore
granted = run platform default granting

granted-IsWellFormed : IsWellFormed granted
granted-IsWellFormed = run-IsWellFormed platform default granting default-IsWellFormed

abbrev used_ops : List Op
used_ops =
    requests build
    ∷ decides "id-1" true (from_secs 20) (from_secs 20) (from_secs 20)
    ∷ consumes "id-1" owner "exec_command" null (from_secs 30) (from_secs 30)
    ∷ []

abbrev used : ApprovalStore
used = run platform default used_ops

abbrev row : ApprovalDecision → Record
row d = record {
  scope = owner;
  fingerprint = "exec_command";
  tool = "exec_command";
  capabilities = [];
  operation_summary = "exec_command: build";
  isolation = "strict";
  request_id = none;
  created = from_secs 5;
  created_at_epoch_seconds = 100;
  sequence = 0;
  decision = d;
}

granted_row : get "id-1" (cleanup_locked (from_secs 30) granted.records) ≡ some (row approved)
unfolding run step request_with_details usable_id decide consume mark_launch_failed cleanup_locked
    get insert fingerprint_of
granted_row = refl

granted_consumes :
    (consume platform "id-1" owner "exec_command" null (from_secs 30) (from_secs 30) granted).1
    ≡ ok tt
unfolding run step request_with_details usable_id decide consume mark_launch_failed cleanup_locked
    get insert fingerprint_of
granted_consumes = refl

used-IsWellFormed : IsWellFormed used
used-IsWellFormed = run-IsWellFormed platform default used_ops default-IsWellFormed

used_row : get "id-1" used.records ≡ some (row consumed)
unfolding run step request_with_details usable_id decide consume mark_launch_failed cleanup_locked
    get insert fingerprint_of
used_row = refl

consume-ok_iff_example :
    ((consume platform "id-1" owner "exec_command" null (from_secs 30) (from_secs 30) granted).1
      ≡ ok tt)
    ↔ ((granted.records_poisoned ≡ false)
        × ((r : Record) × (get "id-1" (cleanup_locked (from_secs 30) granted.records) ≡ some r)
            × IsUsable platform owner "exec_command" null (from_secs 30) r))
consume-ok_iff_example =
    consume-ok_iff platform "id-1" owner "exec_command" null (from_secs 30) (from_secs 30) granted

consume_once_example :
    (consume platform "id-1" owner "exec_command" null (from_secs 40) (from_secs 40) (
      run platform
        (consume platform "id-1" owner "exec_command" null (from_secs 30) (from_secs 30) granted).0
        (lists_pending (from_secs 35) ∷ []))).1
    ≢ ok tt
consume_once_example =
    consume_once platform "id-1" owner owner "exec_command" "exec_command" null null (from_secs 30)
      (from_secs 30) (from_secs 40) (from_secs 40) granted (lists_pending (from_secs 35) ∷ [])
      granted-IsWellFormed granted_consumes (tt, tt)

consume_needs_grant_example : Any (Grants "id-1") granting
consume_needs_grant_example =
    consume_needs_grant platform "id-1" owner "exec_command" null (from_secs 30) (from_secs 30)
      granting granted_consumes

granted_sound : granted.records_poisoned ≡ false
unfolding run step request_with_details usable_id decide consume mark_launch_failed cleanup_locked
    get insert fingerprint_of
granted_sound = refl

session_b_ne_a : ◌≢◌ {A = String} "session-a" "session-b"
session_b_ne_a = ground (arith, eq_iff "session-a" "session-b")

tools_differ : ◌≢◌ {A = String} "exec_command" "apply_patch"
tools_differ = ground (arith, eq_iff "exec_command" "apply_patch")

revoked_root_not_consumable_example :
    (consume platform "id-1" owner "exec_command" null (from_secs 31) (from_secs 31) (
      run platform
        (remove_execution_root platform "d:\\Project/" (from_secs 30) granted).0
        (lists_pending (from_secs 30) ∷ []))).1
    ≢ ok tt
revoked_root_not_consumable_example =
    revoked_root_not_consumable platform "d:\\Project/" (from_secs 30) granted granted-IsWellFormed
      granted_sound "id-1" owner "exec_command" null (from_secs 31) (from_secs 31)
      (lists_pending (from_secs 30) ∷ []) (unfold normalized_root in refl) (tt, tt)

keys_differ : ◌≢◌ {A = String} "b" "a"
keys_differ = ground (arith, eq_iff "b" "a")

fingerprint-same_example :
    fingerprint_of platform "exec_command" (object (field "b" null (field "a" (bool true) end)))
    ≡ fingerprint_of platform "exec_command" (object (field "a" (bool true) (field "b" null end)))
fingerprint-same_example =
    fingerprint-same platform "exec_command"
      (in_object (swapped "b" "a" null (bool true) end keys_differ))

run-IsWellFormed_example : IsWellFormed (run platform default used_ops)
run-IsWellFormed_example = run-IsWellFormed platform default used_ops default-IsWellFormed
