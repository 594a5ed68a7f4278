-- ===== src/Workspace.antt =====
-- src-tauri/src/tools/workspace.rs: the paths of a workspace. Its `path_key` and `path_is_within` are
-- those of src-tauri/src/tools/execution_context.rs; the displayed form of a path is left out.
pub mod Inside
use gpt_tools_mcp.Prelude.{
  ℕ, String, Bool, true, false, not, ◌&&◌, ◌||◌, ◌==◌, ◌⊎◌, leb, List, [], ◌∷◌, map, Option, none,
  some, any, str_eq, inl, inr, if◌then◌else◌,
}
use gpt_tools_mcp.Prelude.Text.{codes, codes_eq, slashes, starts_with, contains_char, is_empty}
use gpt_tools_mcp.Prelude.Split.{parts_of}
use gpt_tools_mcp.Prelude.Result.{and_then, require, ok_or}
use gpt_tools_mcp.Context.{
  System, FileKind, ErrorCode, not_found, not_a_directory, invalid_argument, path_outside_workspace,
  symlink_escape, ContextResult, path_is_within,
}
use gpt_tools_mcp.Context.Resolve.{is_link, is_present}
use gpt_tools_mcp.Context.Execution.{canonical_roots}

-- The errors of this file that `ErrorCode` has not.
pub data PathError : Type 0 where
  absolute_path_denied : PathError
  protected_path : PathError
  denied : ErrorCode → PathError

pub record Workspace : Type 0 where
  pub repository_root : String
  pub active_root : String

pub record ResolvedPath : Type 0 where
  pub path : String
  pub existed : Bool

abbrev pub PathResult : Type 0 → Type 0
PathResult A = PathError ⊎ A

-- `new_with_roots`: the checks are those of `canonical_roots` of execution_context.rs.
unfoldable pub new_with_roots : System → String → String → ContextResult Workspace
unfolding canonical_roots
new_with_roots os repository_root active_root =
    and_then (canonical_roots os repository_root active_root)
      (λ roots. inr (record { repository_root = roots.0; active_root = roots.1 }))

abbrev is_letter : ℕ → Bool
is_letter c = (leb b'A' c && leb c b'Z') || (leb b'a' c && leb c b'z')

-- A path that starts with a drive, as `C:`.
abbrev has_drive : List ℕ → Bool
has_drive (c ∷ d ∷ rest) = is_letter c && d == b':'
has_drive _ = false

-- `reject_unsafe_text`.
unfoldable pub reject_unsafe_text : System → String → PathResult Unit
unfolding is_empty starts_with
reject_unsafe_text os raw =
    let text = codes raw in
    require (not (is_empty raw || contains_char (λ c. c == 0) text)) (denied invalid_argument) (
      require
        (not (starts_with (b'/' ∷ []) text || (starts_with (b'\\' ∷ []) text || has_drive text)))
        absolute_path_denied
        (require (not (os.has_parent_dir raw)) (denied path_outside_workspace) (inr tt)))

unfoldable pub or_dot : String → String
unfolding is_empty
or_dot raw = if is_empty raw then "." else raw

-- `ensure_inside_workspace`.
unfoldable pub ensure_inside_workspace : System → Workspace → String → String → PathResult Unit
unfolding path_is_within
ensure_inside_workspace os ws candidate resolved =
    require (path_is_within os ws.active_root resolved)
      (denied (if is_link (os.file_kind candidate) then symlink_escape else path_outside_workspace))
      (inr tt)

-- `validate_base`.
unfoldable pub validate_base : System → Workspace → String → PathResult String
unfolding path_is_within
validate_base os ws base = and_then (ok_or (denied not_found) (os.canonicalize base)) (λ resolved.
    require (os.is_dir resolved) (denied not_a_directory) (
      require (path_is_within os ws.active_root resolved) (denied path_outside_workspace)
        (inr resolved)))

-- The existing path of a candidate, inside the workspace.
unfoldable pub existing_inside : System → Workspace → String → PathResult ResolvedPath
unfolding ensure_inside_workspace
existing_inside os ws candidate =
    and_then (ok_or (denied not_found) (os.canonicalize candidate)) (λ resolved.
      and_then (ensure_inside_workspace os ws candidate resolved)
        (λ inside. inr (record { path = resolved; existed = true })))

-- `resolve_existing_at`.
unfoldable pub resolve_existing_at : System → Workspace → String → String → PathResult ResolvedPath
unfolding or_dot reject_unsafe_text validate_base existing_inside
resolve_existing_at os ws base raw_path =
    let raw = or_dot raw_path in
    and_then (reject_unsafe_text os raw) (λ safe.
      and_then (validate_base os ws base)
        (λ base. existing_inside os ws (os.join base (os.native_separators raw))))

abbrev first_component : String → List ℕ
unfolding parts_of
first_component raw = (parts_of b'/' (slashes (codes raw))).0

-- `reject_protected_write_path`.
unfoldable pub reject_protected_write_path : String → PathResult Unit
unfolding first_component codes_eq
reject_protected_write_path raw =
    require
      (not (
        codes_eq (first_component raw) (codes ".git")
        || codes_eq (first_component raw) (codes ".github")))
      protected_path (inr tt)

-- The first of the directories above a path that is there, up to the root.
unfoldable pub first_existing : System → String → List String → Option String
first_existing os root [] = none
first_existing os root (cursor ∷ rest) =
    let above = first_existing os root rest in
    if os.exists cursor then some cursor else if str_eq cursor root then none else above

abbrev inside_if_there : System → Workspace → Option String → PathResult Unit
unfolding path_is_within
inside_if_there os ws none = inr tt
inside_if_there os ws (some cursor) =
    and_then (ok_or (denied not_found) (os.canonicalize cursor)) (λ resolved.
      require (path_is_within os ws.active_root resolved) (denied path_outside_workspace) (inr tt))

-- `ensure_parent_chain`.
unfoldable pub ensure_parent_chain : System → Workspace → String → PathResult Unit
unfolding first_existing inside_if_there
ensure_parent_chain os ws parent =
    inside_if_there os ws (first_existing os ws.active_root (os.ancestors parent))

abbrev pub parent_or : String → List String → String
parent_or root (path ∷ parent ∷ _) = parent
parent_or root _ = root

-- The directory that a new file is to stand in.
unfoldable pub resolved_parent : System → Workspace → String → PathResult String
unfolding ensure_parent_chain
resolved_parent os ws parent =
    if os.exists parent
    then ok_or (denied not_found) (os.canonicalize parent)
    else and_then (ensure_parent_chain os ws parent) (λ inside. inr parent)

abbrev has_name : System → String → Bool
has_name os raw = elim (os.file_name raw) [ none ↦ false | some name ↦ true ]

-- `resolve_for_write`.
unfoldable pub resolve_for_write : System → Workspace → String → PathResult ResolvedPath
unfolding reject_unsafe_text reject_protected_write_path existing_inside resolved_parent
    path_is_within
resolve_for_write os ws raw =
    let candidate = os.join ws.active_root (os.native_separators raw) in
    let parent = parent_or ws.active_root (os.ancestors candidate) in
    and_then (reject_unsafe_text os raw) (λ safe.
      and_then (reject_protected_write_path raw) (λ open_path.
        require (has_name os raw && not (str_eq raw "." || str_eq raw ".."))
          (denied invalid_argument)
          (if is_present os candidate
            then existing_inside os ws candidate
            else and_then (resolved_parent os ws parent) (λ directory.
              require (path_is_within os ws.active_root directory) (denied path_outside_workspace)
                (inr (record { path = candidate; existed = false }))))))

-- `DEFAULT_EXCLUDED_NAMES`.
abbrev pub default_excluded_names : List String
default_excluded_names =
    ".git" ∷ ".reference" ∷ "node_modules" ∷ "target" ∷ "dist" ∷ "build" ∷ ".venv" ∷ "venv" ∷ ".tox"
    ∷ ".mypy_cache" ∷ ".pytest_cache" ∷ ".ruff_cache" ∷ "__pycache__" ∷ []

abbrev ignored_parts : Bool → Bool → Option (List String) → Bool
unfolding starts_with
ignored_parts hidden ignored none = false
ignored_parts hidden ignored (some parts) =
    (not hidden && any (λ p. starts_with (b'.' ∷ []) (codes p) && not (str_eq p ".")) parts)
    || (not ignored && any (λ p. any (λ n. str_eq n p) default_excluded_names) parts)

-- `is_ignored_path`.
unfoldable pub is_ignored_path : System → Workspace → String → Bool → Bool → Bool
unfolding ignored_parts
is_ignored_path os ws path include_hidden include_ignored =
    ignored_parts include_hidden include_ignored (os.components_below path ws.active_root)
