-- ===== src/Exec/Wait.antt =====
-- The wait of `run_command` in src-tauri/src/tools/exec.rs for a process that was started.
use gpt_tools_mcp.Prelude.{
  ℕ, ◌+◌, ◌-◌, ◌==◌, zero, suc, String, Bool, not, ◌&&◌, ◌||◌, leb, Option, none, some, ◌⊎◌, inl,
  inr, if◌then◌else◌,
}
use gpt_tools_mcp.Prelude.Text.{is_empty}
use gpt_tools_mcp.Session.{
  Output, ExecSession, refresh_status, mark_termination_reason, mark_stdin_closed,
}
use gpt_tools_mcp.Session.Store.{closed, write_failed, written}
use gpt_tools_mcp.Exec.{Poll, Runner, Input, returns, blocks}

-- The arguments of `run_command` that the wait reads; times are numbers of nanoseconds.
pub record Limits : Type 0 where
  pub limit : ℕ
  pub yield_time : ℕ
  pub tty : Bool
  pub stdin_text : String

-- How the wait ends: the process has ended, it was killed at its deadline, or it runs on.
pub data How : Type 0 where
  finished : How
  timed_out : How
  runs_on : How

pub record Ended : Type 0 where
  pub how : How
  pub session : ExecSession

-- A session with what its readers have read by then.
abbrev pub read_by : Output → Output → ExecSession → ExecSession
read_by stdout stderr s = record s { stdout = stdout; stderr = stderr }

-- `mark_termination_reason`, `kill_and_wait` and `refresh_status`.
unfoldable pub kill_overdue : Poll → ExecSession → ExecSession
unfolding refresh_status
kill_overdue p s =
    refresh_status p.second (refresh_status p.first (mark_termination_reason "timeout" s))

abbrev pub ends : Poll → How → ExecSession → Ended
ends p how s = record { how = how; session = read_by p.stdout p.stderr s }

-- One turn of the loop: the end, or the session for the next turn.
unfoldable pub turn : ℕ → Limits → Poll → ExecSession → Ended ⊎ ExecSession
unfolding refresh_status kill_overdue
turn start l p s =
    let seen = refresh_status p.waited s in
    if seen.exited
    then inl (ends p finished seen)
    else if not l.tty && leb (start + l.limit) p.at_deadline
    then inl (ends p timed_out (kill_overdue p seen))
    else if leb l.yield_time (p.at_yield - start) || l.tty
    then inl (ends p runs_on seen)
    else inr seen

-- The loop from its turn `i` on, for as many turns as the fuel.
unfoldable pub wait_loop : ℕ → ℕ → Limits → (ℕ → Poll) → ℕ → ExecSession → Option Ended
unfolding turn
wait_loop zero start l polls i s = none
wait_loop (suc fuel) start l polls i s = elim (turn start l (polls i) s) [
  | inl e ↦ some e
  | inr next ↦ wait_loop fuel start l polls (suc i) next
]

-- The writing of `stdin`, to a process whose standard input is open; a failure ends `run_command`.
-- `write_all` has no timeout: `none` is a write that never returns.
unfoldable pub write_text : Input → Limits → ExecSession → Option (ExecSession ⊎ ExecSession)
unfolding is_empty
write_text input l s = if l.tty || is_empty l.stdin_text then some (inr s) else elim input [
  | returns closed ↦ some (inr (mark_stdin_closed s))
  | returns write_failed ↦ some (inl s)
  | returns written ↦ some (inr (mark_stdin_closed s))
  | blocks ↦ none
]

-- The turns that 30 seconds have, the most that `yield_time_ms` gives, for a sleep of 20 ms, and one.
abbrev pub most_turns : ℕ
most_turns = 1501

-- What follows the start of the process: a session whose text could not be written, or the end of
-- the wait, or a write that does not return. Without a time to wait the text is not written.
pub data Waits : Type 0 where
  blocked : Waits
  not_written : ExecSession → Waits
  waited_for : Option Ended → Waits

unfoldable pub waits_of : Runner → Limits → Option (ExecSession ⊎ ExecSession) → Waits
unfolding wait_loop
waits_of r l none = blocked
waits_of r l (some (inl s)) = not_written s
waits_of r l (some (inr s)) = waited_for (wait_loop most_turns r.start l r.polls 0 s)

unfoldable pub await_process : Runner → Limits → ExecSession → Waits
unfolding waits_of write_text
await_process r l s =
    if l.yield_time == 0
    then waited_for (some (record { how = runs_on; session = read_by r.at_once.0 r.at_once.1 s }))
    else waits_of r l (write_text r.stdin l s)
