-- ===== src/Exec.antt =====
-- src-tauri/src/tools/exec.rs: the tool that starts commands. `Environment` reads the variables that a
-- caller asks for, `Program` finds the program of a command, `Wait` waits for its end, and `Command`
-- is `exec_command_authorized`. Starting a process, the files and the search on PATH are the fields
-- of `Runner`.
pub mod Environment
pub mod Safe
pub mod Program
pub mod Diagnostic
pub mod Wait
pub mod Ends
pub mod Command
pub mod Run
pub mod Checked
pub mod Started
pub mod Authorized
pub mod Unstarted
pub mod Answers
mod Tests
use gpt_tools_mcp.Prelude.{ℕ, String, Bool, List, [], ◌∷◌, Option, ◌⊎◌, if◌then◌else◌}
use gpt_tools_mcp.Prelude.Text.{before}
use gpt_tools_mcp.Answer.{WorkspaceError}
use gpt_tools_mcp.Session.{Output, ExecSession, Waited}
use gpt_tools_mcp.Session.Store.{Stdin}
use gpt_tools_mcp.Workspace.{PathError}

pub record LaunchPlan : Type 0 where
  pub program : String
  pub args : List String

-- A process that is to be started: its program, its directory, whether it is interactive, and the
-- variables of the caller.
pub record Launch : Type 0 where
  pub plan : LaunchPlan
  pub cwd : String
  pub interactive : Bool
  pub variables : List (String × String)

-- What one turn of the wait for a process sees: the answer of `try_wait`, two readings of the clock,
-- what the readers have read, and, if the process is killed, the answers of the waits for its end.
pub record Poll : Type 0 where
  pub waited : Waited
  pub at_deadline : ℕ
  pub at_yield : ℕ
  pub first : Waited
  pub second : Waited
  pub stdout : Output
  pub stderr : Output

-- What the writing of `stdin` to a process does: it returns, or it waits for as long as the process
-- does not read.
pub data Input : Type 0 where
  returns : Stdin → Input
  blocks : Input

-- The operating system as this file uses it. `sandbox` is the error of `require_exec_sandbox`, `spawn`
-- the session of a process that was started.
pub record Runner : Type 0 where
  pub path_error : PathError → WorkspaceError
  pub is_file : String → Bool
  pub extension : String → Option String
  pub which : String → Option String
  pub read_dir : String → WorkspaceError ⊎ List String
  pub sandbox : Option WorkspaceError
  pub spawn : Launch → WorkspaceError ⊎ ExecSession
  pub stdin : Input
  pub start : ℕ
  pub at_once : Output × Output
  pub polls : ℕ → Poll

-- A sort by a key that is text; it is stable, as `sort_by` is.
unfoldable pub insert_by {ℓ} : {A : Type ℓ} → (A → List ℕ) → A → List A → List A
unfolding before
insert_by key e [] = e ∷ []
insert_by key e (f ∷ rest) =
    let later = insert_by key e rest in if before (key f) (key e) then f ∷ later else e ∷ f ∷ rest

unfoldable pub sort_by {ℓ} : {A : Type ℓ} → (A → List ℕ) → List A → List A
unfolding insert_by
sort_by key [] = []
sort_by key (e ∷ rest) = insert_by key e (sort_by key rest)
