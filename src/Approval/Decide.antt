-- ===== src/Approval/Decide.antt =====
-- src-tauri/src/security/approval.rs: the operations on one record, `decide`, `consume` and
-- `mark_launch_failed`.
use gpt_tools_mcp.Prelude.{ℕ, String, Bool, not, ◌||◌, Option, none, some, str_eq, if◌then◌else◌}
use gpt_tools_mcp.Prelude.Assoc.{get, insert}
use gpt_tools_mcp.Json.{Value}
use gpt_tools_mcp.Approval.{
  Platform, ApprovalScope, ApprovalDecision, ApprovalStatus, Record, pending, approved, denied,
  expired, consumed, launch_failed, invalidated, is_pending, scope_eq, status_of,
}
use gpt_tools_mcp.Approval.Fingerprint.{fingerprint_of}
use gpt_tools_mcp.Approval.Store.{
  store_unavailable, not_found, not_pending, required, not_consumed, was_invalidated, was_expired,
  was_denied, was_consumed, was_launch_failed, Result, ok, err, ApprovalStore, cleanup_locked,
  cleaned,
}

-- What an operation on one record leaves, from the record that `get_mut` finds.
abbrev pub on_record {ℓ} :
    {A : Type ℓ}
    → String
    → ℕ
    → ApprovalStore
    → (Record → Record × Result A)
    → Option Record
    → ApprovalStore × Result A
on_record id now s act none = (cleaned now s, err not_found)
on_record id now s act (some r) =
    (record s { records = insert id (act r).0 (cleanup_locked now s.records) }, (act r).1)

-- `records.get_mut(id).ok_or("approval_not_found")?` after the lock and the clean-up: the action
-- gets the record and returns it as it leaves it.
unfoldable pub with_record {ℓ} :
    {A : Type ℓ}
    → String
    → ℕ
    → ApprovalStore
    → (Record → Record × Result A)
    → ApprovalStore × Result A
unfolding cleanup_locked
with_record id now s act =
    if s.records_poisoned
    then (s, err store_unavailable)
    else on_record id now s act (get id (cleanup_locked now s.records))

unfoldable pub decide_record :
    Platform → String → Bool → ℕ → ℕ → Record → Record × Result ApprovalStatus
unfolding status_of
decide_record p id approve later last r =
    if not (is_pending (status_of p r id later).decision)
    then (r, err not_pending)
    else let r' = record r { decision = if approve then approved else denied } in
      (r', ok (status_of p r' id last))

-- `decide`.
unfoldable pub decide :
    Platform → String → Bool → ℕ → ℕ → ℕ → ApprovalStore → ApprovalStore × Result ApprovalStatus
unfolding with_record decide_record
decide p id approve now later last s = with_record id now s (decide_record p id approve later last)

-- The `match` at the end of `consume`, on the effective decision.
abbrev pub consume_decision : ApprovalDecision → Record → Record × Result (Unit {0})
consume_decision approved r = (record r { decision = consumed }, ok tt)
consume_decision expired r = (r, err was_expired)
consume_decision denied r = (r, err was_denied)
consume_decision consumed r = (r, err was_consumed)
consume_decision launch_failed r = (r, err was_launch_failed)
consume_decision invalidated r = (r, err was_invalidated)
consume_decision pending r = (r, err required)

unfoldable pub consume_record :
    Platform → ApprovalScope → String → Value → ℕ → String → Record → Record × Result (Unit {0})
unfolding status_of
consume_record p scope tool args later id r =
    if not (str_eq r.scope.context scope.context)
    then (r, err not_found)
    else if not (scope_eq r.scope scope) || not (str_eq r.fingerprint (fingerprint_of p tool args))
    then (record r { decision = invalidated }, err was_invalidated)
    else consume_decision (status_of p r id later).decision r

-- `consume`.
unfoldable pub consume :
    Platform
    → String
    → ApprovalScope
    → String
    → Value
    → ℕ
    → ℕ
    → ApprovalStore
    → ApprovalStore × Result (Unit {0})
unfolding with_record consume_record
consume p id scope tool args now later s =
    with_record id now s (consume_record p scope tool args later id)

-- The `match` at the end of `mark_launch_failed`, on the stored decision.
abbrev pub launch_decision :
    Platform → String → ℕ → ApprovalDecision → Record → Record × Result ApprovalStatus
launch_decision p id later consumed r =
    let r' = record r { decision = launch_failed } in (r', ok (status_of p r' id later))
launch_decision p id later launch_failed r = (r, ok (status_of p r id later))
launch_decision p id later pending r = (r, err required)
launch_decision p id later approved r = (r, err not_consumed)
launch_decision p id later denied r = (r, err was_denied)
launch_decision p id later expired r = (r, err was_expired)
launch_decision p id later invalidated r = (r, err was_invalidated)

unfoldable pub launch_failed_record :
    Platform → ApprovalScope → String → Value → ℕ → String → Record → Record × Result ApprovalStatus
unfolding status_of
launch_failed_record p scope tool args later id r =
    if not (str_eq r.scope.context scope.context)
    then (r, err not_found)
    else if not (scope_eq r.scope scope) || not (str_eq r.fingerprint (fingerprint_of p tool args))
    then (record r { decision = invalidated }, err was_invalidated)
    else launch_decision p id later r.decision r

-- `mark_launch_failed`.
unfoldable pub mark_launch_failed :
    Platform
    → String
    → ApprovalScope
    → String
    → Value
    → ℕ
    → ℕ
    → ApprovalStore
    → ApprovalStore × Result ApprovalStatus
unfolding with_record launch_failed_record
mark_launch_failed p id scope tool args now later s =
    with_record id now s (launch_failed_record p scope tool args later id)
