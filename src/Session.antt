-- ===== src/Session.antt =====
-- src-tauri/src/tools/session.rs: a command session, its two output streams, and what the program
-- records when its process ends. `Store` holds the table of sessions and the tools on it.
-- Bytes are numbers; `content` is given as bytes, before `from_utf8_lossy`. What the operating
-- system answers about a process is an argument.
pub mod Stream
pub mod Store
pub mod Kill
pub mod Pages
pub mod Shutdown
mod Tests
use gpt_tools_mcp.Prelude.{
  ℕ, ◌-◌, ◌+◌, ◌^◌, min, String, Bool, true, false, not, ◌&&◌, ◌||◌, List, [], ◌∷◌, ◌++◌, Option,
  none, some, ltb, leb, ◌==◌, length, drop, str_eq, if◌then◌else◌,
}
use gpt_tools_mcp.Prelude.Text.{is_empty}
use gpt_tools_mcp.Json.{Number, pos_int, or_default}

-- `SESSION_BUFFER_BYTES`.
abbrev pub session_buffer_bytes : ℕ
session_buffer_bytes = 1048576

abbrev pub Bytes : Type 0
Bytes = List ℕ

-- The retained bytes of a stream, and the count of all that were read.
pub record Output : Type 0 where
  pub retained : Bytes
  pub total : ℕ

-- `trim_buffer`.
unfoldable pub trim_buffer : ℕ → Bytes → Bytes
trim_buffer limit buf = if ltb limit (length buf) then drop (length buf - limit) buf else buf

-- One turn of `read_stream`, for a chunk that is not empty.
unfoldable pub read_chunk : ℕ → Output → Bytes → Output
unfolding trim_buffer
read_chunk limit out chunk = record {
  retained = trim_buffer limit (out.retained ++ chunk);
  total = out.total + length chunk;
}

-- What one read of the stream gives: some bytes (none at the end), or an error.
pub data Read : Type 0 where
  got : Bytes → Read
  broken : Read

-- `read_stream`, on the reads so far: it ends at an empty read and at an error.
unfoldable pub read_stream : ℕ → Output → List Read → Output
unfolding read_chunk
read_stream limit out [] = out
read_stream limit out (got [] ∷ rest) = out
read_stream limit out (got (b ∷ bytes) ∷ rest) =
    read_stream limit (read_chunk limit out (b ∷ bytes)) rest
read_stream limit out (broken ∷ rest) = out

pub record ExecSession : Type 0 where
  pub session_id : String
  pub interactive : Bool
  pub stdin_open : Bool
  pub stdout : Output
  pub stderr : Output
  pub exit_code : Option Number
  pub exited : Bool
  pub termination_reason : Option String
  pub execution_fingerprint : String
  pub sandbox_enforced : Bool
  pub execution_boundary : String
  pub host_completion : Option String

abbrev pub no_output : Output
no_output = record { retained = []; total = 0 }

-- `new_inner`; whether the child has an open standard input is an argument.
abbrev pub new_inner : String → Bool → Bool → String → Bool → String → ExecSession
new_inner id stdin_open interactive fingerprint sandbox_enforced boundary = record {
  session_id = id;
  interactive = interactive;
  stdin_open = stdin_open;
  stdout = no_output;
  stderr = no_output;
  exit_code = none;
  exited = false;
  termination_reason = none;
  execution_fingerprint = fingerprint;
  sandbox_enforced = sandbox_enforced;
  execution_boundary = boundary;
  host_completion = none;
}

-- `belongs_to_context`.
unfoldable pub belongs_to_context : String → ExecSession → Bool
unfolding is_empty
belongs_to_context fingerprint s =
    is_empty s.execution_fingerprint || str_eq s.execution_fingerprint fingerprint

-- `record_exit_status`, with the exit code if there is one.
unfoldable pub record_exit_status : Option Number → ExecSession → ExecSession
record_exit_status code s = record s {
  host_completion = none;
  exit_code = code;
  exited = true;
  stdin_open = false;
  termination_reason = some (or_default "exited" s.termination_reason);
}

-- The task whose expected state `record_exit_status` refreshes, where the execution context of the
-- session is still valid.
abbrev pub refreshed_task : Bool → ExecSession → Option String
refreshed_task true s = s.host_completion
refreshed_task false s = none

-- What `try_wait` answers: nothing, or the end of the process with its exit code.
pub data Waited : Type 0 where
  still_running : Waited
  ended : Option Number → Waited

-- `refresh_status`.
unfoldable pub refresh_status : Waited → ExecSession → ExecSession
unfolding record_exit_status
refresh_status still_running s = s
refresh_status (ended code) s = record_exit_status code s

-- `mark_termination_reason` and `mark_stdin_closed`.
abbrev pub mark_termination_reason : String → ExecSession → ExecSession
mark_termination_reason reason s = record s { termination_reason = some reason }

abbrev pub mark_stdin_closed : ExecSession → ExecSession
mark_stdin_closed s = record s { stdin_open = false }

pub record Truncated : Type 0 where
  pub content : Bytes
  pub truncated : Bool

-- `truncate_tail`.
unfoldable pub truncate_tail : Bytes → ℕ → Truncated
truncate_tail bytes max_bytes = record {
  content = drop (length bytes - min (length bytes) max_bytes) bytes;
  truncated = ltb max_bytes (length bytes);
}

abbrev is_zero : Option Number → Bool
is_zero (some (pos_int n)) = n == 0
is_zero _ = false

-- `command_ok` of `snapshot`.
unfoldable pub command_ok : String → Option Number → Option Bool
command_ok reason code =
    if str_eq reason "exited"
    then some (is_zero code)
    else if str_eq reason "running"
    then none
    else some false

-- `snapshot`, but for the suggestion and the time that has passed.
pub record Snapshot : Type 0 where
  pub session_id : String
  pub interactive : Bool
  pub stdin_open : Bool
  pub status : String
  pub termination_reason : String
  pub recoverable : Bool
  pub exit_code : Option Number
  pub command_ok : Option Bool
  pub sandbox_enforced : Bool
  pub execution_boundary : String
  pub stdout : Truncated
  pub stderr : Truncated

unfoldable pub snapshot : ℕ → ExecSession → Snapshot
unfolding truncate_tail command_ok
snapshot max_output_bytes s =
    let reason = or_default "running" s.termination_reason in
    record {
      session_id = s.session_id;
      interactive = s.interactive;
      stdin_open = s.stdin_open;
      status = if s.exited then "exited" else "running";
      termination_reason = reason;
      recoverable =
          str_eq reason "timeout"
          || (str_eq reason "killed"
              || (str_eq reason "spawn_failed" || str_eq reason "server_restart"));
      exit_code = s.exit_code;
      command_ok = command_ok reason s.exit_code;
      sandbox_enforced = s.sandbox_enforced;
      execution_boundary = s.execution_boundary;
      stdout = truncate_tail s.stdout.retained max_output_bytes;
      stderr = truncate_tail s.stderr.retained max_output_bytes;
    }
