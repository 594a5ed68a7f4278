-- ===== src/Exec/Run.antt =====
-- `exec_command_authorized` of src-tauri/src/tools/exec.rs from the reservation on, with `run_command`
-- and `merge_exec_result`. An answer has what is said of the process; the keys that only repeat how
-- it is isolated are left out.
use gpt_tools_mcp.Prelude.{
  String, Bool, true, false, [], ◌∷◌, Option, none, some, ◌⊎◌, inl, inr, if◌then◌else◌,
}
use gpt_tools_mcp.Prelude.Assoc
use gpt_tools_mcp.Json.{Value}
use gpt_tools_mcp.Answer.{WorkspaceError, tool, code_of}
use gpt_tools_mcp.Permission.{host_access}
use gpt_tools_mcp.Context.Execution.{ExecutionContext, fingerprint}
use gpt_tools_mcp.Invocation.{
  AuthorizedInvocation, Caller, Reserved, granted, reserve, commit, drop_reservation,
}
use gpt_tools_mcp.Session.{ExecSession, Snapshot, command_ok, snapshot}
use gpt_tools_mcp.Session.Store.{SessionStore}
use gpt_tools_mcp.Dispatch.{Setup, is_one_of, permission_revision}
use gpt_tools_mcp.Exec.{LaunchPlan, Launch, Runner}
use gpt_tools_mcp.Exec.Program.{shell_launch, parse_and_resolve}
use gpt_tools_mcp.Exec.Wait.{
  How, finished, timed_out, runs_on, Waits, blocked, not_written, waited_for, await_process,
}
use gpt_tools_mcp.Exec.Command.{Preflight, native, prepared, Prepared, preflight, reserve_error}

-- `merge_exec_result`.
pub record Merged : Type 0 where
  pub snapshot : Snapshot
  pub command : String
  pub resolved_cwd : String
  pub command_ok : Option Bool
  pub execution_mode : String
  pub warning : String

unfoldable pub merge_exec_result : Prepared → Bool → Snapshot → Merged
unfolding command_ok
merge_exec_result p keep_session s = record {
  snapshot = s;
  command = p.cmd;
  resolved_cwd = p.cwd;
  command_ok = command_ok s.termination_reason s.exit_code;
  execution_mode = if s.sandbox_enforced then "sandbox" else "direct";
  warning =
      if keep_session
      then "session retained for read_output/write_stdin/kill_session"
      else if s.sandbox_enforced
      then "sandboxed execution without shell"
      else "direct execution without shell";
}

-- The answers: the output of a native diagnostic, a process, a process that was killed at its
-- deadline, and a process that could not be started.
pub data ExecAnswer : Type 0 where
  diagnosed : String → ExecAnswer
  merged : Merged → ExecAnswer
  stopped : Snapshot → ExecAnswer
  not_started : WorkspaceError → ExecAnswer

pub data Outcome : Type 0 where
  answers : ExecAnswer → Outcome
  refuses : WorkspaceError → Outcome
  out_of_turns : Outcome
  never_returns : Outcome

-- What a call leaves: its outcome, the execution context, the authorization, the sessions, and the
-- process that it started.
pub record Done : Type 0 where
  pub outcome : Outcome
  pub context : ExecutionContext
  pub invocation : AuthorizedInvocation
  pub sessions : SessionStore
  pub started : Option Launch

-- `execution_failure_result`: which errors of `run_command` are answers.
unfoldable pub execution_failure : WorkspaceError → Outcome
execution_failure e =
    if is_one_of
      ("COMMAND_REJECTED" ∷ "COMMAND_SPAWN_FAILED" ∷ "HOST_PROCESS_START_FAILED" ∷ "TIMEOUT" ∷ [])
      (code_of e)
    then answers (not_started e)
    else refuses e

-- The table of sessions after the wait.
unfoldable pub settled : How → ExecSession → SessionStore → SessionStore
unfolding Assoc.remove Assoc.insert
settled finished s store = Assoc.remove s.session_id store
settled timed_out s store = Assoc.insert s.session_id s store
settled runs_on s store = Assoc.insert s.session_id s store

unfoldable pub outcome_of : Prepared → How → ExecSession → Outcome
unfolding merge_exec_result snapshot
outcome_of p finished s = answers (merged (merge_exec_result p false (snapshot p.max_output s)))
outcome_of p timed_out s = answers (stopped (snapshot p.max_output s))
outcome_of p runs_on s = answers (merged (merge_exec_result p true (snapshot p.max_output s)))

unfoldable pub after_start : Prepared → SessionStore → Waits → Outcome × SessionStore
unfolding Assoc.insert execution_failure settled outcome_of
after_start p store (not_written s) = (
  execution_failure (tool "SESSION_CLOSED" "Failed to write stdin." "runtime" false),
  Assoc.insert s.session_id s store,
)
after_start p store blocked = (never_returns, store)
after_start p store (waited_for none) = (out_of_turns, store)
after_start p store (waited_for (some e)) =
    (outcome_of p e.how e.session, settled e.how e.session store)

-- A start that fails; the reservation is dropped.
unfoldable pub start_fails :
    WorkspaceError → ExecutionContext → AuthorizedInvocation → SessionStore → Done
unfolding execution_failure drop_reservation
start_fails e ctx i store = record {
  outcome = execution_failure e;
  context = ctx;
  invocation = drop_reservation i;
  sessions = store;
  started = none;
}

-- `run_command` after the process was started.
unfoldable pub spawned :
    Runner
    → Prepared
    → Launch
    → ExecutionContext
    → AuthorizedInvocation
    → SessionStore
    → WorkspaceError ⊎ ExecSession
    → Done
unfolding commit await_process after_start start_fails Assoc.insert
spawned r p l ctx i store (inl e) = start_fails e ctx i store
spawned r p l ctx i store (inr s) =
    let after = after_start p (Assoc.insert s.session_id s store) (await_process r p.limits s) in
    record {
      outcome = after.0;
      context = ctx;
      invocation = commit i;
      sessions = after.1;
      started = some l;
    }

abbrev pub launch_of : Prepared → LaunchPlan → Launch
launch_of p plan = record {
  plan = plan;
  cwd = p.cwd;
  interactive = p.limits.tty;
  variables = p.variables;
}

unfoldable pub planned :
    Runner
    → Prepared
    → AuthorizedInvocation
    → SessionStore
    → (WorkspaceError ⊎ LaunchPlan) × ExecutionContext
    → Done
unfolding start_fails spawned
planned r p i store (inl e, ctx) = start_fails e ctx i store
planned r p i store (inr plan, ctx) =
    spawned r p (launch_of p plan) ctx i store (r.spawn (launch_of p plan))

-- `run_command`, with an authorization that was reserved. With host access the shell runs the command.
unfoldable pub run_command :
    Setup → Runner → Prepared → ExecutionContext → AuthorizedInvocation → SessionStore → Done
unfolding planned shell_launch parse_and_resolve
run_command t r p ctx i store = planned r p i store (
    if host_access t.policy.permissions
    then (inr (shell_launch t r p.cmd), ctx)
    else parse_and_resolve t r ctx p.cwd p.cmd)

-- What `reserve` reads of the call.
unfoldable pub caller : Setup → Value → ExecutionContext → Caller
unfolding fingerprint permission_revision
caller t args ctx = record {
  execution_fingerprint = fingerprint t.os ctx;
  permission_revision = permission_revision t ctx;
  tool = "exec_command";
  args = args;
}

abbrev pub unstarted : Outcome → ExecutionContext → AuthorizedInvocation → SessionStore → Done
unstarted outcome ctx i store = record {
  outcome = outcome;
  context = ctx;
  invocation = i;
  sessions = store;
  started = none;
}

unfoldable pub after_reservation :
    Setup
    → Runner
    → Prepared
    → Value
    → ExecutionContext
    → AuthorizedInvocation
    → SessionStore
    → AuthorizedInvocation × Reserved
    → Done
unfolding run_command reserve_error caller
after_reservation t r p args ctx i store (after, granted) = run_command t r p ctx after store
after_reservation t r p args ctx i store (after, answer) =
    unstarted (refuses (reserve_error i (caller t args ctx) answer)) ctx after store

unfoldable pub after_preflight :
    Setup
    → Runner
    → Value
    → AuthorizedInvocation
    → SessionStore
    → (WorkspaceError ⊎ Preflight) × ExecutionContext
    → Done
unfolding after_reservation reserve caller
after_preflight t r args i store (inl e, ctx) = unstarted (refuses e) ctx i store
after_preflight t r args i store (inr (native output), ctx) =
    unstarted (answers (diagnosed output)) ctx i store
after_preflight t r args i store (inr (prepared p), ctx) =
    after_reservation t r p args ctx i store (reserve i (caller t args ctx))

-- `exec_command_authorized`.
unfoldable pub exec_command_authorized :
    Setup → Runner → Value → AuthorizedInvocation → ExecutionContext → SessionStore → Done
unfolding after_preflight preflight
exec_command_authorized t r args i ctx store =
    after_preflight t r args i store (preflight t r args ctx)
