-- ===== src/Exec/Tests.antt =====
-- A command that is started on a concrete workspace.
use gpt_tools_mcp.Prelude.{
  ℕ, ◌+◌, ◌*◌, true, false, ◌≡◌, refl, List, [], ◌∷◌, none, some, All, inr, arith, leb,
  if◌then◌else◌,
}
use mathlib.Core.List.{Perm}
use gpt_tools_mcp.Json.{Value, Fields, string, pos_int, object, field, end, get_key}
use gpt_tools_mcp.Answer.{invalid_argument}
use gpt_tools_mcp.Permission.{host_access}
use gpt_tools_mcp.Context.{directory}
use gpt_tools_mcp.Context.Tests.{linux, context}
use gpt_tools_mcp.Invocation.{AuthorizedInvocation, new, launch_failed}
use gpt_tools_mcp.Session.{ExecSession, no_output, new_inner, still_running, ended, Waited}
use gpt_tools_mcp.Session.Store.{written}
use gpt_tools_mcp.Dispatch.{Setup}
use gpt_tools_mcp.Dispatch.Sample.{setup}
use gpt_tools_mcp.Exec.{Launch, Poll, Runner, returns}
use gpt_tools_mcp.Exec.Command.{limits_of, preflight}
use gpt_tools_mcp.Exec.Environment.{Variable, by_key, parse_user_environment}
use gpt_tools_mcp.Exec.Safe.{IsAllowed, IsOrdered, object_of, parse_user_environment_lem}
use gpt_tools_mcp.Exec.Diagnostic.{is_word}
use gpt_tools_mcp.Exec.Wait.{Limits}
use gpt_tools_mcp.Exec.Ends.{IsPaced, IsBlocked}
use gpt_tools_mcp.Exec.Run.{caller, exec_command_authorized}
use gpt_tools_mcp.Exec.Authorized.{IsAuthorized, exec_command-IsAuthorized}
use gpt_tools_mcp.Exec.Unstarted.{IsSpared, exec_command-unstarted}
use gpt_tools_mcp.Exec.Answers.{IsGiven, exec_command-answers}

abbrev given : Fields
given = field "LANG" (string "C") (field "cc" (string "gcc") end)

abbrev args : Value
args = object (field "cmd" (string "make all; ls") (field "env" (object given) end))

abbrev variables : List Variable
variables = ("cc", "gcc") ∷ ("LANG", "C") ∷ []

abbrev session : ExecSession
session = new_inner "s1" true false "digest" false "policy_only"

-- The process ends before the third turn.
abbrev answer_at : ℕ → Waited
answer_at i = if leb 2 i then ended (some (pos_int 0)) else still_running

abbrev poll : ℕ → Poll
poll i = record {
  waited = answer_at i;
  at_deadline = 100 + i * 20000000;
  at_yield = 100 + i * 20000000;
  first = still_running;
  second = still_running;
  stdout = no_output;
  stderr = no_output;
}

abbrev runner : Runner
runner = record {
  path_error = λ e. invalid_argument "path";
  is_file = λ path. false;
  extension = λ path. none;
  which = λ name. none;
  read_dir = λ path. inr [];
  sandbox = none;
  spawn = λ l. inr session;
  stdin = returns written;
  start = 100;
  at_once = (no_output, no_output);
  polls = poll;
}

abbrev limits : Limits
limits = record { limit = 30000000000; yield_time = 1000000000; tty = false; stdin_text = "" }

-- Every path is a directory that exists, and every relative one is its base.
abbrev here : Setup
here = record setup {
  os = record linux {
    file_kind = λ path. directory;
    is_absolute = λ path. false;
    join = λ base name. base;
  };
}

abbrev authorized : AuthorizedInvocation
authorized = new (caller here args context)

abbrev launch : Launch
launch = record {
  plan = record { program = "/bin/sh"; args = "-c" ∷ "make all; ls" ∷ [] };
  cwd = "/repo";
  interactive = false;
  variables = variables;
}

reads_variables : parse_user_environment false args ≡ inr variables
unfolding parse_user_environment by_key
reads_variables = refl

starts_launch :
    (exec_command_authorized here runner args authorized context []).started ≡ some launch
unfolding exec_command_authorized host_access by_key
starts_launch = refl

-- A program that is nowhere to be found; its authorization is lost.
abbrev unknown : Value
unknown = object (field "cmd" (string "frobnicate") end)

abbrev unknown_authorized : AuthorizedInvocation
unknown_authorized = new (caller here unknown context)

starts_none :
    (exec_command_authorized here runner unknown unknown_authorized context []).started ≡ none
unfolding exec_command_authorized host_access is_word
starts_none = refl

loses_authorization :
    (exec_command_authorized here runner unknown unknown_authorized context []).invocation.state
    ≡ launch_failed
unfolding exec_command_authorized host_access is_word
loses_authorization = refl

is_paced : IsPaced 100 poll
is_paced i = omega arith

not-IsBlocked : ¬ IsBlocked runner (limits_of args)
not-IsBlocked (stuck, quiet, given, some_time) = absurd (cc)

env_given : get_key "env" args ≡ some (object given)
unfolding get_key
env_given = refl

parse_user_environment_lem_example :
    (read : List Variable) × (given ≡ object_of read)
    × All (IsAllowed false) read
    × Perm read variables
    × IsOrdered variables
parse_user_environment_lem_example =
    parse_user_environment_lem false args given variables env_given reads_variables

exec_command-IsAuthorized_example :
    IsAuthorized here runner args authorized context
      (exec_command_authorized here runner args authorized context [])
      launch
exec_command-IsAuthorized_example =
    exec_command-IsAuthorized here runner args authorized context [] launch starts_launch

exec_command-unstarted_example :
    let after = exec_command_authorized here runner unknown unknown_authorized context [] in
    (after.sessions ≡ [])
    × IsSpared here unknown unknown_authorized
        (preflight here runner unknown context)
        after.invocation
exec_command-unstarted_example =
    exec_command-unstarted here runner unknown unknown_authorized context [] starts_none

exec_command-answers_example :
    IsGiven (exec_command_authorized here runner args authorized context []).outcome
exec_command-answers_example =
    exec_command-answers here runner args authorized context [] not-IsBlocked is_paced
