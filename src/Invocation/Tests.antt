-- ===== src/Invocation/Tests.antt =====
-- Two threads and one authorization (src-tauri/src/tools/authorized_invocation.rs).
use gpt_tools_mcp.Prelude.{◌≤◌, ◌≡◌, refl, All, length}
use gpt_tools_mcp.Json.{string, object, end, field}
use gpt_tools_mcp.Invocation.{Caller, reserve, matches}
use gpt_tools_mcp.Invocation.Threads.{
  System, start, after_reserve, here, next, reserves, SameOperation, granted_once,
}

abbrev caller : Caller
caller = record {
  execution_fingerprint = "f";
  permission_revision = "1";
  tool = "exec_command";
  args = object (field "approval_id" (string "id-1") (field "cmd" (string "make") end));
}

-- The same command under another approval.
abbrev other : Caller
other = record caller { args = object (field "cmd" (string "make") end) }

abbrev reserved_once : System
reserved_once = after_reserve (start caller) other

grants_other : reserved_once.held ≡ 1
unfolding reserve matches
grants_other = refl

abbrev after_both : System
after_both = after_reserve reserved_once caller

granted_once_example :
    (length after_both.callers ≤ 1) × All (SameOperation caller) after_both.callers
granted_once_example =
    granted_once caller
      (next (next here (reserves (start caller) other)) (reserves reserved_once caller))
