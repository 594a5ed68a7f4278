-- ===== src/Approval/Launch.antt =====
-- The uses of an approval that fail (src-tauri/src/security/approval.rs): a foreign caller, a
-- changed request, and the report of a failed launch.
use gpt_tools_mcp.Prelude.{
  ℕ, ◌-◌, String, ◌≡◌, ◌≢◌, ◌⊎◌, false, some, arith, str_eq, eq_iff, ltb, if◌then◌else◌,
}
use gpt_tools_mcp.Prelude.Assoc.{get, get-insert}
use gpt_tools_mcp.Json.{Value}
use gpt_tools_mcp.Approval.{
  Platform, Record, ApprovalScope, consumed, launch_failed, invalidated, status_of,
  terminal_retention,
}
use gpt_tools_mcp.Approval.Fingerprint.{fingerprint_of}
use gpt_tools_mcp.Approval.Store.{
  ApprovalStore, ok, err, not_found, was_invalidated, expire, is_kept, cleanup_locked,
}
use gpt_tools_mcp.Approval.Decide.{
  with_record, consume, consume_record, mark_launch_failed, launch_failed_record,
}
use gpt_tools_mcp.Approval.Invariant.{IsWellFormed}
use gpt_tools_mcp.Approval.Cleanup.{get-cleanup}
use gpt_tools_mcp.Approval.OneShot.{scope_eq_iff}

module _ (p : Platform) (id : String) (scope : ApprovalScope) (tool : String) (args : Value)
    (now later : ℕ) (s : ApprovalStore) (r : Record) (sound : s.records_poisoned ≡ false)
    (here : get id (cleanup_locked now s.records) ≡ some r) where
  -- A caller of another context changes no record: `consume` and `mark_launch_failed` answer as for
  -- an unknown id, and every look-up is as the clean-up leaves it.
  pub foreign_context :
      r.scope.context ≢ scope.context
      → (j : String)
      → ((consume p id scope tool args now later s).1 ≡ err not_found)
        × ((mark_launch_failed p id scope tool args now later s).1 ≡ err not_found)
        × (get j (consume p id scope tool args now later s).0.records
            ≡ get j (cleanup_locked now s.records))
        × (get j (mark_launch_failed p id scope tool args now later s).0.records
            ≡ get j (cleanup_locked now s.records))
  unfolding consume mark_launch_failed with_record consume_record launch_failed_record
  foreign_context foreign j =
      let differ = eq_iff r.scope.context scope.context in
      let inserted = get-insert id j r (cleanup_locked now s.records) in
      let same = eq_iff id j in
      (
        ground (arith, differ),
        ground (arith, differ),
        ground (arith, differ, inserted, same),
        ground (arith, differ, inserted, same),
      )

  -- A use by the owner's context with another scope or other arguments spends the record: the call
  -- fails and the record is invalidated, and no other record changes.
  pub changed_request :
      r.scope.context ≡ scope.context
      → (r.scope ≢ scope) ⊎ (r.fingerprint ≢ fingerprint_of p tool args)
      → (j : String)
      → ((consume p id scope tool args now later s).1 ≡ err was_invalidated)
        × (get j (consume p id scope tool args now later s).0.records ≡ (
            if str_eq id j
            then some (record r { decision = invalidated })
            else get j (cleanup_locked now s.records)))
  unfolding consume with_record consume_record
  changed_request own changed j =
      let same_context = eq_iff r.scope.context scope.context in
      let same_scope = scope_eq_iff r.scope scope in
      let same_print = eq_iff r.fingerprint (fingerprint_of p tool args) in
      let inserted =
        get-insert id j (record r { decision = invalidated }) (cleanup_locked now s.records) in
      (
        ground (arith, same_context, same_scope, same_print),
        ground (arith, same_context, same_scope, same_print, inserted),
      )

-- The report of a failed launch of an approval that was consumed: it is recorded while the record
-- is younger than the retention of terminal records, and `approval_not_found` afterwards, since
-- the clean-up measures the retention from the creation of the request.
pub launch_failure_window :
    (p : Platform) (id : String) (scope : ApprovalScope) (tool : String) (args : Value)
    (now later : ℕ) (s : ApprovalStore) (r : Record)
    → IsWellFormed s
    → s.records_poisoned ≡ false
    → get id s.records ≡ some r
    → r.decision ≡ consumed
    → r.scope ≡ scope
    → r.fingerprint ≡ fingerprint_of p tool args
    → (mark_launch_failed p id scope tool args now later s).1 ≡ (
        if ltb (now - r.created) terminal_retention
        then ok (status_of p (record r { decision = launch_failed }) id later)
        else err not_found)
unfolding mark_launch_failed with_record launch_failed_record is_kept expire
launch_failure_window p id scope tool args now later s r v sound here done same print = ground (
  arith,
  get-cleanup now id s.records v.distinct,
  eq_iff r.scope.context scope.context,
  scope_eq_iff r.scope scope,
  eq_iff r.fingerprint (fingerprint_of p tool args),
)
