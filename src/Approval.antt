-- ===== src/Approval.antt =====
-- src-tauri/src/security/approval.rs: the data of the approval store, the clock arithmetic of a
-- record, and the fingerprint of a request. `Store` holds the operations.
-- Instants are nanoseconds of the monotonic clock; `-` on them stops at 0, as
-- `saturating_duration_since` and `saturating_sub` do.
pub mod Fingerprint
pub mod Store
pub mod Decide
pub mod Queue
pub mod Trace
pub mod Invariant
mod Entries
mod Kept
pub mod OneShot
pub mod Granted
pub mod Launch
pub mod Order
pub mod Revocation
pub mod Canonical
mod Cleanup
pub mod Tests
use gpt_tools_mcp.Prelude.{
  ℕ, ◌+◌, ◌-◌, ◌*◌, ◌/◌, ◌^◌, min, String, Bool, true, false, ◌&&◌, List, Option, ◌==◌, str_eq,
  if◌then◌else◌,
}
use gpt_tools_mcp.Json.{Value}

-- A duration of whole seconds.
abbrev pub from_secs : ℕ → ℕ
from_secs n = n * 1000000000

abbrev pub as_secs : ℕ → ℕ
as_secs d = d / 1000000000

abbrev pub ttl : ℕ
ttl = from_secs 600

abbrev pub terminal_retention : ℕ
terminal_retention = from_secs 60

abbrev pub capacity : ℕ
capacity = 256

abbrev pub u64_max : ℕ
u64_max = 2 ^ 64 - 1

-- `u64::saturating_add`.
abbrev pub saturating_add : ℕ → ℕ → ℕ
saturating_add a b = min (a + b) u64_max

-- What the module takes from outside the repository: SHA-256 of a text's bytes in lower-case
-- hexadecimal, the JSON text of a pair (tool, arguments), and `Path::canonicalize`, which fails on
-- a path that does not exist.
pub record Platform : Type 0 where
  pub sha256_hex : String → String
  pub to_json : String → Value → String
  pub canonicalize : String → Option String

pub record ApprovalScope : Type 0 where
  pub context : String
  pub task : String
  pub execution_root : String
  pub policy_revision : String

-- The derived `PartialEq`.
abbrev pub scope_eq : ApprovalScope → ApprovalScope → Bool
scope_eq a b =
    str_eq a.context b.context
    && (str_eq a.task b.task
        && (str_eq a.execution_root b.execution_root && str_eq a.policy_revision b.policy_revision))

pub data ApprovalDecision : Type 0 where
  pending approved denied expired consumed launch_failed invalidated : ApprovalDecision

pub record ApprovalStatus : Type 0 where
  pub approval_id : String
  pub task : String
  pub context_hash : String
  pub execution_root : String
  pub tool : String
  pub capabilities : List String
  pub operation_summary : String
  pub isolation : String
  pub decision : ApprovalDecision
  pub remaining_seconds : ℕ
  pub created_at_epoch_seconds : ℕ
  pub expires_at_epoch_seconds : ℕ

pub record Record : Type 0 where
  pub scope : ApprovalScope
  pub fingerprint : String
  pub tool : String
  pub capabilities : List String
  pub operation_summary : String
  pub isolation : String
  pub request_id : Option String
  pub created : ℕ
  pub created_at_epoch_seconds : ℕ
  pub sequence : ℕ
  pub decision : ApprovalDecision

-- `matches!(decision, Pending | Approved)`.
abbrev pub is_open : ApprovalDecision → Bool
is_open pending = true
is_open approved = true
is_open _ = false

-- `matches!(decision, Denied | Expired | Consumed | LaunchFailed | Invalidated)`.
abbrev pub is_terminal : ApprovalDecision → Bool
is_terminal pending = false
is_terminal approved = false
is_terminal _ = true

abbrev pub is_pending : ApprovalDecision → Bool
is_pending pending = true
is_pending _ = false

abbrev pub is_expired : ApprovalDecision → Bool
is_expired expired = true
is_expired _ = false

-- The time to live that is left of a record.
abbrev pub remaining : Record → ℕ → ℕ
remaining r now = ttl - (now - r.created)

unfoldable pub effective_decision : Record → ℕ → ApprovalDecision
effective_decision r now =
    if remaining r now == 0 && is_open r.decision then expired else r.decision

unfoldable pub status_of : Platform → Record → String → ℕ → ApprovalStatus
unfolding effective_decision
status_of p r id now = record {
  approval_id = id;
  task = r.scope.task;
  context_hash = p.sha256_hex r.scope.context;
  execution_root = r.scope.execution_root;
  tool = r.tool;
  capabilities = r.capabilities;
  operation_summary = r.operation_summary;
  isolation = r.isolation;
  decision = effective_decision r now;
  remaining_seconds = as_secs (remaining r now);
  created_at_epoch_seconds = r.created_at_epoch_seconds;
  expires_at_epoch_seconds = saturating_add r.created_at_epoch_seconds (as_secs ttl);
}
