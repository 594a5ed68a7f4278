-- ===== src/Dispatch/Sample.antt =====
-- The data of the tests: a workspace and a command on it.
use gpt_tools_mcp.Prelude.{[], some}
use gpt_tools_mcp.Prelude.Text.{codes}
use gpt_tools_mcp.Json.{Value, null, string, object, field, end}
use gpt_tools_mcp.Answer.{invalid_argument}
use gpt_tools_mcp.Approval.{ApprovalScope, from_secs}
use gpt_tools_mcp.Approval.Store.{default}
use gpt_tools_mcp.Approval.Tests.{platform}
use gpt_tools_mcp.Context.Tests.{linux, context}
use gpt_tools_mcp.Policy.Tests.{matchers, settings, nowhere}
use gpt_tools_mcp.Harness.Trace.{no_files}
use gpt_tools_mcp.Harness.Tests.{env}
use gpt_tools_mcp.Session.{still_running}
use gpt_tools_mcp.Dispatch.{Texts, Setup, World, Call}

abbrev pub texts : Texts
texts = record {
  context_error = λ e. invalid_argument "context";
  harness_code = λ e. "BASELINE_STALE";
  harness_message = λ e. "stale";
  policy_detail = λ e. "refused";
  approval_status = λ s. null;
  harness_status = λ s. null;
  permissions = "policy";
  isolation_policy = null;
  fallback_allowed = null;
  process_elevated = null;
  relative_display = λ root path. path;
  decimal = λ n. codes "1";
  from_chars = λ s. "summary";
}

abbrev pub setup : Setup
setup = record {
  os = linux;
  platform = platform;
  matchers = matchers;
  local_entry = nowhere;
  policy = settings;
  isolation_mode = "strict";
  workspace_root = "/repo";
  exposed = [];
  texts = texts;
}

abbrev pub world : World
world = record {
  sessions = [];
  execution = context;
  approvals = default;
  harness = no_files;
  operations = [];
}

abbrev pub call : Value → Call
call given = record {
  name = "exec_command";
  args = given;
  identity = some "session-a";
  waited = λ id. still_running;
  now = from_secs 30;
  later = from_secs 30;
  uuid = "id-2";
  epoch_seconds = 100;
  at = λ m. env "100" "t1";
}

abbrev pub named : Value
named = object (
    field "approval_id" (string "id-1")
      (field "cmd" (string "make all; ls") (field "env" (object end) end)))

abbrev pub scope : ApprovalScope
scope = record {
  context = "session-a";
  task = "";
  execution_root = "/repo";
  policy_revision = "digest:policy";
}
