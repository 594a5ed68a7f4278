-- ===== src/Harness.antt =====
-- src-tauri/src/harness/model.rs: the statuses of a task and its data, and the files that
-- src-tauri/src/harness/store.rs keeps of one workspace.
pub mod Store
pub mod State
pub mod Baseline
pub mod Trace
mod Effect
mod Names
pub mod Single
pub mod Life
pub mod Check
pub mod Refresh
pub mod Start
pub mod Failure
pub mod Operations
pub mod Tests
use gpt_tools_mcp.Prelude.{ℕ, String, Bool, true, false, List, Option}
use gpt_tools_mcp.Json.{Value}

-- `SCHEMA_VERSION`.
abbrev pub current_schema : ℕ
current_schema = 1

pub data TaskStatus : Type 0 where
  active paused verifying failed completed completed_unverified rolled_back : TaskStatus

-- `TaskStatus::is_writable`.
unfoldable pub is_writable : TaskStatus → Bool
is_writable active = true
is_writable paused = true
is_writable verifying = true
is_writable failed = true
is_writable _ = false

-- `TaskStatus::can_transition_to`.
unfoldable pub can_transition_to : TaskStatus → TaskStatus → Bool
can_transition_to active paused = true
can_transition_to active verifying = true
can_transition_to active failed = true
can_transition_to active completed_unverified = true
can_transition_to paused active = true
can_transition_to verifying completed = true
can_transition_to verifying completed_unverified = true
can_transition_to verifying failed = true
can_transition_to failed active = true
can_transition_to failed rolled_back = true
can_transition_to _ _ = false

-- The word that serde writes, `rename_all = "snake_case"`.
abbrev pub as_word : TaskStatus → String
as_word active = "active"
as_word paused = "paused"
as_word verifying = "verifying"
as_word failed = "failed"
as_word completed = "completed"
as_word completed_unverified = "completed_unverified"
as_word rolled_back = "rolled_back"

pub record BaselineEntry : Type 0 where
  pub path : String
  pub exists : Bool
  pub is_binary : Bool
  pub sha256 : String
  pub bytes : ℕ

pub record ProjectBaseline : Type 0 where
  pub branch : Option String
  pub head : Option String
  pub worktree_fingerprint : String
  pub entries : List BaselineEntry
  pub captured_at : String

pub record TaskSession : Type 0 where
  pub id : String
  pub workspace_id : String
  pub objective : String
  pub status : TaskStatus
  pub baseline : ProjectBaseline
  pub expected_fingerprint : String
  pub completed_steps : List String
  pub pending_steps : List String
  pub latest_change_id : Option String
  pub latest_verification_id : Option String
  pub created_at : String
  pub updated_at : String

pub record ReasonRecord : Type 0 where
  pub text : String
  pub source : String

pub record FileChangeRecord : Type 0 where
  pub path : String
  pub status : String
  pub before_sha256 : Option String
  pub after_sha256 : Option String

pub record HarnessEvent : Type 0 where
  pub id : String
  pub task_id : String
  pub operation_id : String
  pub kind : String
  pub tool_name : Option String
  pub input_summary : Value
  pub result_summary : Value
  pub reason : Option ReasonRecord
  pub affected_files : List FileChangeRecord
  pub created_at : String

pub record WorkspaceHarnessState : Type 0 where
  pub schema_version : ℕ
  pub active_task_id : Option String
  pub recent_task_ids : List String
  pub updated_at : String
