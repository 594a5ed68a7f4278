-- ===== src/ToolContext.antt =====
-- src-tauri/src/tools/context.rs: how a tool's path is resolved and checked.
pub mod Confined
mod Tests
use gpt_tools_mcp.Prelude.{
  ℕ, String, Bool, true, false, not, ◌&&◌, ◌||◌, ◌==◌, List, [], ◌∷◌, Option, none, some, inl, inr,
  if◌then◌else◌,
}
use gpt_tools_mcp.Prelude.Text.{codes, contains_char, is_empty}
use gpt_tools_mcp.Prelude.Result.{and_then, require}
use gpt_tools_mcp.Context.{
  System, not_found, not_a_directory, invalid_argument, symlink_escape, ContextResult, PathIntent,
  read, write, command_cwd,
}
use gpt_tools_mcp.Context.Resolve.{is_link, is_present}
use gpt_tools_mcp.Context.Execution.{ExecutionContext}
use gpt_tools_mcp.Context.Validate.{validate_resolved_path}
use gpt_tools_mcp.Workspace.{PathResult, denied, ResolvedPath, or_dot, reject_unsafe_text}

abbrev denied_if_error : {A : Type 0} → ContextResult A → PathResult A
denied_if_error (inl e) = inl (denied e)
denied_if_error (inr a) = inr a

abbrev is_read : PathIntent → Bool
is_read read = true
is_read _ = false

abbrev is_write : PathIntent → Bool
is_write write = true
is_write _ = false

abbrev is_cwd : PathIntent → Bool
is_cwd command_cwd = true
is_cwd _ = false

-- The text of a path is checked, but for a read, and with host access a write or a directory.
abbrev checks_text : Bool → PathIntent → Bool
checks_text host intent = not (is_read intent) && not (host && (is_write intent || is_cwd intent))

abbrev checked_result : System → PathIntent → Bool → ContextResult String → PathResult ResolvedPath
checked_result os intent existed found = and_then (denied_if_error found) (λ validated.
    require (not (is_cwd intent) || os.is_dir validated) (denied not_a_directory)
      (inr (record { path = validated; existed = existed })))

-- The check of the execution context, which it leaves changed, and that a working directory is one.
unfoldable pub checked_path :
    System
    → ExecutionContext
    → String
    → PathIntent
    → Bool
    → PathResult ResolvedPath × ExecutionContext
unfolding validate_resolved_path
checked_path os ctx candidate intent existed =
    let answer = validate_resolved_path os candidate intent ctx in
    (checked_result os intent existed answer.0, answer.1)

-- The path that a tool's argument names.
abbrev pub candidate_of : System → String → String → String
unfolding or_dot
candidate_of os base raw_path =
    let raw = or_dot raw_path in
    if os.is_absolute raw then raw else os.join base (os.native_separators raw)

-- What `resolve_path_from_base` checks of the text and of the candidate itself.
unfoldable pub check_candidate :
    System → ExecutionContext → PathIntent → Bool → String → String → PathResult Unit
unfolding reject_unsafe_text
check_candidate os ctx intent allow_missing raw candidate =
    require (not (contains_char (λ c. c == 0) (codes raw))) (denied invalid_argument) (
      and_then (if checks_text ctx.host_access intent then reject_unsafe_text os raw else inr tt)
        (λ safe. require (allow_missing || is_present os candidate) (denied not_found) (
          require (ctx.host_access || not (is_write intent && is_link (os.file_kind candidate)))
            (denied symlink_escape) (inr tt))))

-- `resolve_path_from_base`: the path, and the context that the check has left.
unfoldable pub resolve_path_from_base :
    System
    → ExecutionContext
    → String
    → PathIntent
    → Bool
    → String
    → PathResult ResolvedPath × ExecutionContext
unfolding or_dot candidate_of check_candidate checked_path
resolve_path_from_base os ctx base intent allow_missing raw_path =
    let candidate = candidate_of os base raw_path in
    elim (check_candidate os ctx intent allow_missing (or_dot raw_path) candidate) [
      | inl e ↦ (inl e, ctx)
      | inr tt ↦ checked_path os ctx candidate intent (is_present os candidate)
    ]

-- `resolve_for_write_from_default_cwd`.
unfoldable pub resolve_for_write_from_default_cwd :
    System → ExecutionContext → String → PathResult ResolvedPath × ExecutionContext
unfolding resolve_path_from_base
resolve_for_write_from_default_cwd os ctx raw_path =
    resolve_path_from_base os ctx ctx.default_cwd write true raw_path

-- `resolve_command_cwd`.
unfoldable pub resolve_command_cwd :
    System → ExecutionContext → String → PathResult ResolvedPath × ExecutionContext
unfolding resolve_path_from_base
resolve_command_cwd os ctx raw_path =
    resolve_path_from_base os ctx ctx.default_cwd command_cwd false raw_path
