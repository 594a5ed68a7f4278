-- ===== src/Approval/Trace.antt =====
-- Histories of the approval store: every public operation of `ApprovalStore` as a step.
use gpt_tools_mcp.Prelude.{ℕ, String, Bool, List, [], ◌∷◌}
use gpt_tools_mcp.Json.{Value}
use gpt_tools_mcp.Approval.{Platform, ApprovalScope}
use gpt_tools_mcp.Approval.Store.{ApprovalStore, Request, request_with_details, status}
use gpt_tools_mcp.Approval.Decide.{decide, consume, mark_launch_failed}
use gpt_tools_mcp.Approval.Queue.{pending_list, remove_context, remove_execution_root}

pub data Op : Type 0 where
  requests : Request → Op
  reads_status : String → String → ℕ → ℕ → Op
  decides : String → Bool → ℕ → ℕ → ℕ → Op
  consumes : String → ApprovalScope → String → Value → ℕ → ℕ → Op
  marks_launch_failed : String → ApprovalScope → String → Value → ℕ → ℕ → Op
  lists_pending : ℕ → Op
  removes_context : String → ℕ → Op
  removes_root : String → ℕ → Op

unfoldable pub step : Platform → ApprovalStore → Op → ApprovalStore
step p s (requests q) = (request_with_details p q s).0
step p s (reads_status context id now later) = (status p context id now later s).0
step p s (decides id approve now later last) = (decide p id approve now later last s).0
step p s (consumes id scope tool args now later) = (consume p id scope tool args now later s).0
step p s (marks_launch_failed id scope tool args now later) =
    (mark_launch_failed p id scope tool args now later s).0
step p s (lists_pending now) = (pending_list p now s).0
step p s (removes_context context now) = remove_context context now s
step p s (removes_root root now) = (remove_execution_root p root now s).0

unfoldable pub run : Platform → ApprovalStore → List Op → ApprovalStore
run p s [] = s
run p s (op ∷ ops) = run p (step p s op) ops
