-- ===== src/Approval/Store.antt =====
-- src-tauri/src/security/approval.rs: `ApprovalStore` and its operations. An operation takes the
-- readings of the clock that it makes, in order, and returns the new store and its result. A lock
-- that another thread has poisoned is a flag of the store.
use gpt_tools_mcp.Prelude.{
  ℕ, ◌+◌, ◌-◌, String, Bool, true, false, not, ◌&&◌, List, [], Option, none, some, ltb, leb, length,
  retain, find, str_eq, if◌then◌else◌,
}
use gpt_tools_mcp.Prelude.Text.{trim, is_empty}
use gpt_tools_mcp.Prelude.Assoc.{get, insert, map_values}
use gpt_tools_mcp.Json.{Value}
use gpt_tools_mcp.Approval.{
  Platform, ApprovalScope, ApprovalStatus, Record, pending, expired, is_open, is_terminal,
  is_expired, scope_eq, ttl, terminal_retention, capacity, saturating_add, effective_decision,
  status_of,
}
use gpt_tools_mcp.Approval.Fingerprint.{fingerprint_of}

-- The `&'static str` of a refusal.
pub data ApprovalError : Type 0 where
  store_unavailable request_conflict queue_full not_found not_pending required not_consumed :
      ApprovalError
  was_invalidated was_expired was_denied was_consumed was_launch_failed : ApprovalError

pub data Result {ℓ} (A : Type ℓ) : Type ℓ where
  ok : A → Result A
  err : ApprovalError → Result A

pub record ApprovalStore : Type 0 where
  pub records : List (String × Record)
  pub next_sequence : ℕ
  pub records_poisoned : Bool
  pub sequence_poisoned : Bool

-- `Default`.
abbrev pub default : ApprovalStore
default = record {
  records = [];
  next_sequence = 0;
  records_poisoned = false;
  sequence_poisoned = false;
}

-- The first loop of `cleanup_locked`, on one record.
unfoldable pub expire : ℕ → Record → Record
unfolding effective_decision
expire now r =
    if is_open r.decision && is_expired (effective_decision r now)
    then record r { decision = expired }
    else r

-- The closure of `retain` in `cleanup_locked`.
unfoldable pub is_kept : ℕ → Record → Bool
is_kept now r =
    if not (is_terminal r.decision)
    then true
    else ltb (now - r.created)
        (if is_expired r.decision then ttl + terminal_retention else terminal_retention)

unfoldable pub cleanup_locked : ℕ → List (String × Record) → List (String × Record)
unfolding expire is_kept
cleanup_locked now rs = retain (λ e. is_kept now e.1) (map_values (expire now) rs)

-- `request_id.map(str::trim).filter(|value| !value.is_empty())`.
unfoldable pub usable_id : Option String → Option String
unfolding trim is_empty
usable_id none = none
usable_id (some id) = if is_empty (trim id) then none else some (trim id)

abbrev has_request_id : String → Record → Bool
has_request_id rid r = elim r.request_id [ none ↦ false | some x ↦ str_eq x rid ]

abbrev is_same_request : ApprovalScope → String → String → Record → Bool
is_same_request scope tool fp r =
    scope_eq r.scope scope && (str_eq r.tool tool && str_eq r.fingerprint fp)

-- The two searches of `request_with_details` for a record to resume.
unfoldable pub resume :
    Platform
    → ApprovalScope
    → String
    → String
    → Option String
    → ℕ
    → List (String × Record)
    → Option (Result ApprovalStatus)
unfolding status_of
resume p scope tool fp (some rid) now rs = elim (find (λ e. has_request_id rid e.1) rs) [
  | none ↦ none
  | some (id, r) ↦ some (
      if not (is_same_request scope tool fp r)
      then err request_conflict
      else ok (status_of p r id now))
]
resume p scope tool fp none now rs =
    elim (find (λ e. is_same_request scope tool fp e.1 && is_open (effective_decision e.1 now))
      rs) [ none ↦ none | some (id, r) ↦ some (ok (status_of p r id now)) ]

-- What the caller gives to `request_with_details`, and what the environment adds: the reading of
-- the clock, the fresh UUID and the seconds since the epoch.
pub record Request : Type 0 where
  pub scope : ApprovalScope
  pub tool : String
  pub args : Value
  pub request_id : Option String
  pub capabilities : List String
  pub operation_summary : String
  pub isolation : String
  pub now : ℕ
  pub uuid : String
  pub epoch_seconds : ℕ

-- The record that a new request makes.
abbrev pub new_record : Platform → Request → ℕ → Record
new_record p q sequence = record {
  scope = q.scope;
  fingerprint = fingerprint_of p q.tool q.args;
  tool = q.tool;
  capabilities = q.capabilities;
  operation_summary = q.operation_summary;
  isolation = q.isolation;
  request_id = usable_id q.request_id;
  created = q.now;
  created_at_epoch_seconds = q.epoch_seconds;
  sequence = sequence;
  decision = pending;
}

-- The part of `request_with_details` after the search, over the cleaned store.
unfoldable pub create : Platform → Request → ApprovalStore → ApprovalStore × Result ApprovalStatus
unfolding status_of
create p q s =
    if leb capacity (length s.records)
    then (s, err queue_full)
    else if s.sequence_poisoned
    then (s, err store_unavailable)
    else (
      record s {
        records = insert q.uuid (new_record p q s.next_sequence) s.records;
        next_sequence = saturating_add s.next_sequence 1;
      },
      ok (status_of p (new_record p q s.next_sequence) q.uuid q.now),
    )

abbrev pub or_create :
    Platform
    → Request
    → ApprovalStore
    → Option (Result ApprovalStatus)
    → ApprovalStore × Result ApprovalStatus
or_create p q s (some result) = (s, result)
or_create p q s none = create p q s

abbrev pub cleaned : ℕ → ApprovalStore → ApprovalStore
cleaned now s = record s { records = cleanup_locked now s.records }

unfoldable pub request_with_details :
    Platform → Request → ApprovalStore → ApprovalStore × Result ApprovalStatus
unfolding create resume cleanup_locked
request_with_details p q s =
    if s.records_poisoned
    then (s, err store_unavailable)
    else or_create p q (cleaned q.now s) (
        resume p q.scope q.tool (fingerprint_of p q.tool q.args) (usable_id q.request_id) q.now
          (cleanup_locked q.now s.records))

-- `request_with_id` and `request`: no display metadata.
unfoldable pub request_with_id :
    Platform → Request → ApprovalStore → ApprovalStore × Result ApprovalStatus
unfolding request_with_details
request_with_id p q =
    request_with_details p
      (record q { capabilities = []; operation_summary = String.[]; isolation = String.[] })

unfoldable pub request : Platform → Request → ApprovalStore → ApprovalStore × Result ApprovalStatus
unfolding request_with_id
request p q = request_with_id p (record q { request_id = none })

abbrev status_in : Platform → String → String → ℕ → Option Record → Option ApprovalStatus
status_in p context id now none = none
status_in p context id now (some r) =
    if str_eq r.scope.context context then some (status_of p r id now) else none

-- `status`; `now` is read by the clean-up and `later` for the answer.
unfoldable pub status :
    Platform → String → String → ℕ → ℕ → ApprovalStore → ApprovalStore × Option ApprovalStatus
unfolding cleanup_locked status_of
status p context id now later s =
    if s.records_poisoned
    then (s, none)
    else (cleaned now s, status_in p context id later (get id (cleanup_locked now s.records)))
