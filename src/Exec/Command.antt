-- ===== src/Exec/Command.antt =====
-- The checks of `exec_command_authorized` of src-tauri/src/tools/exec.rs, before it starts a process
-- and the errors of its reservation.
use gpt_tools_mcp.Prelude.{
  ℕ, ◌*◌, min, String, true, false, not, ◌&&◌, ◌||◌, List, [], ◌∷◌, Option, none, some, ◌⊎◌, inl,
  inr, str_eq, if◌then◌else◌,
}
use gpt_tools_mcp.Prelude.Text.{trim}
use gpt_tools_mcp.Prelude.Result.{ok_or, require}
use gpt_tools_mcp.Json.{Value, bool, get_key, as_str, as_bool, as_u64, or_default, value_eq}
use gpt_tools_mcp.Answer.{WorkspaceError, tool, tool_details, invalid_argument, json}
use gpt_tools_mcp.Permission.{host_access}
use gpt_tools_mcp.Context.{ContextResult}
use gpt_tools_mcp.Context.Execution.{ExecutionContext}
use gpt_tools_mcp.Context.Validate.{validate}
use gpt_tools_mcp.Invocation.{
  AuthorizedInvocation, Caller, Reserved, consumed, failed, in_flight, effect_args, matches,
}
use gpt_tools_mcp.Dispatch.{Setup}
use gpt_tools_mcp.Exec.{Runner}
use gpt_tools_mcp.Exec.Environment.{Variable, parse_user_environment}
use gpt_tools_mcp.Exec.Diagnostic.{
  Step, bind, lift, directory_at, not_a_directory, run_native_diagnostic,
  validate_child_process_scope,
}
use gpt_tools_mcp.Exec.Wait.{Limits}

-- What a command is started with once all is checked.
pub record Prepared : Type 0 where
  pub cmd : String
  pub cwd : String
  pub limits : Limits
  pub max_output : ℕ
  pub variables : List Variable

-- A command that needs no process has its output at once.
pub data Preflight : Type 0 where
  native : String → Preflight
  prepared : Prepared → Preflight

abbrev pub validated_by : Setup → ContextResult ExecutionContext → Step (Unit {0})
validated_by t (inl e) ctx = (inl (t.texts.context_error e), ctx)
validated_by t (inr now) ctx = (inr tt, now)

-- `validate_execution_context`.
unfoldable pub validated : Setup → Step (Unit {0})
unfolding validate
validated t ctx = validated_by t (validate t.os ctx) ctx

abbrev key_or : Option Value → Option Value → Option Value
key_or none other = other
key_or (some v) other = some v

-- The text of `workdir`, or of `cwd` where there is no `workdir`.
unfoldable pub workdir_of : Value → String
unfolding get_key
workdir_of args = or_default "." (as_str (key_or (get_key "workdir" args) (get_key "cwd" args)))

-- The arguments of the wait; milliseconds become nanoseconds.
unfoldable pub limits_of : Value → Limits
unfolding get_key
limits_of args = record {
  limit = or_default 30000 (as_u64 (get_key "timeout_ms" args)) * 1000000;
  yield_time = min (or_default 1000 (as_u64 (get_key "yield_time_ms" args))) 30000 * 1000000;
  tty = or_default false (as_bool (get_key "tty" args));
  stdin_text = or_default "" (as_str (get_key "stdin" args));
}

unfoldable pub prepared_of : Value → String → String → List Variable → Prepared
unfolding limits_of get_key
prepared_of args cmd cwd variables = record {
  cmd = cmd;
  cwd = cwd;
  limits = limits_of args;
  max_output = or_default 65536 (as_u64 (get_key "max_output_bytes" args));
  variables = variables;
}

abbrev pub sandbox_of : Option WorkspaceError → WorkspaceError ⊎ Unit {0}
sandbox_of none = inr tt
sandbox_of (some e) = inl e

-- The checks after the native diagnostic.
unfoldable pub last_valid : Setup → Value → String → String → List Variable → Step Preflight
unfolding validated prepared_of
last_valid t args cmd cwd variables =
    bind (validated t) (λ valid. lift (inr (prepared (prepared_of args cmd cwd variables))))

unfoldable pub sandboxed : Setup → Value → String → String → Unit {0} → Step Preflight
unfolding parse_user_environment last_valid
sandboxed t args cmd cwd ready =
    bind (lift (parse_user_environment (host_access t.policy.permissions) args))
      (last_valid t args cmd cwd)

unfoldable pub last_checks :
    Setup → Runner → Value → String → String → Option String → Step Preflight
unfolding sandboxed
last_checks t r args cmd cwd (some output) = lift (inr (native output))
last_checks t r args cmd cwd none = bind (lift (sandbox_of r.sandbox)) (sandboxed t args cmd cwd)

-- The diagnostic is tried without host access, and with it for two commands.
unfoldable pub diagnostic : Setup → Runner → String → String → Step (Option String)
unfolding trim run_native_diagnostic
diagnostic t r cmd cwd =
    if not (host_access t.policy.permissions) || (str_eq (trim cmd) "pwd" || str_eq (trim cmd) "ls")
    then run_native_diagnostic t r cmd cwd
    else lift (inr none)

abbrev pub checked_directory : Setup → String → WorkspaceError ⊎ String
checked_directory t cwd =
    require (t.os.is_dir cwd) (not_a_directory "workdir is not a directory") (inr cwd)

unfoldable pub in_scope : Setup → Runner → Value → String → String → Unit {0} → Step Preflight
unfolding diagnostic last_checks
in_scope t r args cmd cwd ready = bind (diagnostic t r cmd cwd) (last_checks t r args cmd cwd)

unfoldable pub in_directory : Setup → Runner → Value → String → String → Step Preflight
unfolding validate_child_process_scope in_scope
in_directory t r args cmd cwd =
    bind (lift (validate_child_process_scope (host_access t.policy.permissions) args))
      (in_scope t r args cmd cwd)

unfoldable pub with_directory : Setup → Runner → Value → String → String → Step Preflight
unfolding in_directory
with_directory t r args cmd found =
    bind (lift (checked_directory t found)) (in_directory t r args cmd)

-- `resolve_command_cwd`, from the default directory.
unfoldable pub with_command : Setup → Runner → Value → String → Step Preflight
unfolding workdir_of directory_at with_directory
with_command t r args cmd ctx =
    bind (directory_at t r ctx.default_cwd (workdir_of args)) (with_directory t r args cmd) ctx

unfoldable pub first_valid : Setup → Runner → Value → Unit {0} → Step Preflight
unfolding with_command get_key
first_valid t r args valid =
    bind (lift (ok_or (invalid_argument "cmd is required") (as_str (get_key "cmd" args))))
      (with_command t r args)

-- All that precedes the reservation.
unfoldable pub preflight : Setup → Runner → Value → Step Preflight
unfolding validated first_valid
preflight t r args = bind (validated t) (first_valid t r args)

-- The errors of `reserve`.
abbrev mismatch_error : AuthorizedInvocation → Caller → WorkspaceError
unfolding json effect_args value_eq
mismatch_error i c =
    tool_details "AUTHORIZED_INVOCATION_INVALID"
      "The authorized operation no longer matches the active execution context." "permission" true
      (json (
        ("context_matches", bool (str_eq i.execution_fingerprint c.execution_fingerprint))
        ∷ ("policy_matches", bool (str_eq i.policy_revision c.permission_revision))
        ∷ ("effect_matches", bool (str_eq i.tool c.tool && value_eq i.effect (effect_args c.args)))
        ∷ ("reservation_consumed", bool true)
        ∷ []))

abbrev state_error : Reserved → WorkspaceError
state_error consumed =
    tool "AUTHORIZED_INVOCATION_CONSUMED"
      "The authorized operation has already been reserved for launch." "permission" false
state_error failed =
    tool "AUTHORIZED_INVOCATION_LAUNCH_FAILED"
      "The authorized operation previously failed to launch." "permission" false
state_error in_flight =
    tool "AUTHORIZED_INVOCATION_IN_FLIGHT" "The authorized operation is already launching."
      "permission" true
state_error _ =
    tool "AUTHORIZED_INVOCATION_INVALID" "The authorized operation has been invalidated."
      "permission" true

unfoldable pub reserve_error : AuthorizedInvocation → Caller → Reserved → WorkspaceError
unfolding mismatch_error matches
reserve_error i c answer = if not (matches i c) then mismatch_error i c else state_error answer
