-- ===== src/Exec/Diagnostic.antt =====
-- The commands that need no process, in src-tauri/src/tools/exec.rs: `run_native_diagnostic` and
-- `list_directory`, with `validate_child_process_scope`. `Step` is a step that can fail and that
-- leaves the execution context changed.
use Prim.Native.String.{◌++◌}
use gpt_tools_mcp.Prelude.{
  String, Bool, true, false, ◌&&◌, ◌||◌, List, [], ◌∷◌, map, Option, none, some, ◌⊎◌, inl, inr,
  str_eq, if◌then◌else◌,
}
use gpt_tools_mcp.Prelude.Text.{codes, codes_eq, ascii_lower}
use gpt_tools_mcp.Prelude.Result.{require, ok_or}
use gpt_tools_mcp.Json.{Value, bool, string, get_key, as_str, or_default}
use gpt_tools_mcp.Answer.{WorkspaceError, tool, tool_details, invalid_argument, json}
use gpt_tools_mcp.Context.{command_cwd}
use gpt_tools_mcp.Context.Execution.{ExecutionContext}
use gpt_tools_mcp.Policy.{Text}
use gpt_tools_mcp.Policy.Scan.{has_forbidden_shell_syntax}
use gpt_tools_mcp.Workspace.{PathResult, ResolvedPath}
use gpt_tools_mcp.ToolContext.{resolve_path_from_base}
use gpt_tools_mcp.Dispatch.{Setup}
use gpt_tools_mcp.Exec.{Runner, sort_by}

abbrev pub Step : Type 0 → Type 0
Step A = ExecutionContext → (WorkspaceError ⊎ A) × ExecutionContext

abbrev pub next :
    {A B : Type 0}
    → (WorkspaceError ⊎ A) × ExecutionContext
    → (A → Step B)
    → (WorkspaceError ⊎ B) × ExecutionContext
next (inl e, ctx) f = (inl e, ctx)
next (inr a, ctx) f = f a ctx

-- `?` after a step.
abbrev pub bind : {A B : Type 0} → Step A → (A → Step B) → Step B
bind m f ctx = next (m ctx) f

abbrev pub lift : {A : Type 0} → WorkspaceError ⊎ A → Step A
lift r ctx = (r, ctx)

abbrev pub path_found :
    Runner
    → PathResult ResolvedPath × ExecutionContext
    → (WorkspaceError ⊎ String) × ExecutionContext
path_found r (inl e, ctx) = (inl (r.path_error e), ctx)
path_found r (inr p, ctx) = (inr p.path, ctx)

-- A directory that a command names, from a base.
unfoldable pub directory_at : Setup → Runner → String → String → Step String
unfolding resolve_path_from_base
directory_at t r base raw ctx =
    path_found r (resolve_path_from_base t.os ctx base command_cwd false raw)

abbrev pub not_a_directory : String → WorkspaceError
not_a_directory message = tool "NOT_A_DIRECTORY" message "validation" false

unfoldable pub join_with : String → List String → String
join_with sep [] = ""
join_with sep (s ∷ []) = s
join_with sep (s ∷ next ∷ rest) = s ++ (sep ++ join_with sep (next ∷ rest))

abbrev listing : List String → String
unfolding join_with
listing [] = ""
listing (name ∷ names) = join_with "\n" (name ∷ names) ++ "\n"

abbrev entries_of : WorkspaceError ⊎ List String → WorkspaceError ⊎ String
unfolding listing sort_by
entries_of (inl e) = inl e
entries_of (inr names) = inr (listing (sort_by codes names))

abbrev list_target : Setup → Runner → String → Step String
unfolding entries_of
list_target t r target = lift (
    require (t.os.is_dir target) (not_a_directory "ls/dir target is not a directory")
      (entries_of (r.read_dir target)))

-- `list_directory`.
unfoldable pub list_directory : Setup → Runner → String → List Text → Step String
unfolding directory_at list_target
list_directory t r cwd [] = list_target t r cwd
list_directory t r cwd (path ∷ []) =
    bind (directory_at t r cwd (t.texts.from_chars path)) (list_target t r)
list_directory t r cwd (path ∷ next ∷ rest) =
    lift (inl (invalid_argument "ls/dir accepts at most one directory path"))

unfoldable pub is_word : String → Text → Bool
unfolding codes_eq
is_word name word = codes_eq (codes name) (map ascii_lower word)

abbrev with_newline : WorkspaceError ⊎ String → WorkspaceError ⊎ Option String
with_newline (inl e) = inl e
with_newline (inr s) = inr (some (s ++ "\n"))

abbrev some_text : String → Step (Option String)
some_text s ctx = (inr (some s), ctx)

abbrev is_nil : List Text → Bool
is_nil [] = true
is_nil (w ∷ ws) = false

-- `which` of one word.
abbrev which_word : Setup → Runner → List Text → Step (Option String)
which_word t r (word ∷ []) = lift (
    with_newline (
      ok_or
        (tool "COMMAND_NOT_FOUND" ("Program not found on PATH: " ++ t.texts.from_chars word)
          "runtime" false)
        (r.which (t.texts.from_chars word))))
which_word t r _ = lift (inr none)

-- The arms of the `match` on the first word.
unfoldable pub diagnose : Setup → Runner → String → Text → List Text → Step (Option String)
unfolding list_directory join_with
diagnose t r cwd word words =
    if is_word "pwd" word && is_nil words
    then some_text (cwd ++ "\n")
    else if is_word "ls" word || is_word "dir" word
    then bind (list_directory t r cwd words) some_text
    else if is_word "which" word
    then which_word t r words
    else if is_word "echo" word
    then some_text (join_with " " (map t.texts.from_chars words) ++ "\n")
    else lift (inr none)

abbrev diagnose_words : Setup → Runner → String → Option (List Text) → Step (Option String)
unfolding diagnose
diagnose_words t r cwd none = lift (inl (invalid_argument "Invalid command syntax"))
diagnose_words t r cwd (some []) = lift (inr none)
diagnose_words t r cwd (some (word ∷ words)) = diagnose t r cwd word words

-- `run_native_diagnostic`: what it prints, if the command is one of its own.
unfoldable pub run_native_diagnostic : Setup → Runner → String → String → Step (Option String)
unfolding has_forbidden_shell_syntax diagnose_words
run_native_diagnostic t r cmd cwd =
    if has_forbidden_shell_syntax (codes cmd)
    then lift (inr none)
    else diagnose_words t r cwd (t.matchers.shell_words (codes cmd))

unfoldable pub external_denied : WorkspaceError
unfolding json
external_denied =
    tool_details "EXTERNAL_EXECUTION_NOT_ALLOWED"
      "exec_command 只允许在 Workspace 内执行，Workspace 外执行已禁用。" "permission" false
      (json (
        ("stage", string "policy")
        ∷ ("filesystem_scope", string "host")
        ∷ ("sandbox_enforced", bool false)
        ∷ ("recoverable", bool false)
        ∷ ("suggestion", string "将 filesystem_scope 设置为 workspace，并在当前 Workspace 内执行")
        ∷ []))

abbrev is_none : Option Value → Bool
is_none none = true
is_none (some v) = false

-- `validate_child_process_scope`.
unfoldable pub validate_child_process_scope : Bool → Value → WorkspaceError ⊎ Unit {0}
unfolding get_key
validate_child_process_scope host args =
    let scope = or_default "workspace" (as_str (get_key "filesystem_scope" args)) in
    if host
    then require (is_none (get_key "filesystem_scope" args) || str_eq scope "host")
        (tool "ISOLATION_CAPABILITY_UNSATISFIED"
          "Host execution does not enforce workspace isolation." "permission" false)
        (inr tt)
    else if str_eq scope "workspace"
    then inr tt
    else if str_eq scope "host"
    then inl external_denied
    else inl (invalid_argument "filesystem_scope must be workspace")
