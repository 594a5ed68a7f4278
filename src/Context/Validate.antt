-- ===== src/Context/Validate.antt =====
-- `validate`, `validate_resolved_path` and `set_default_cwd` of
-- src-tauri/src/tools/execution_context.rs.
use gpt_tools_mcp.Prelude.{
  ℕ, String, Bool, true, false, not, ◌&&◌, ◌||◌, ◌==◌, List, [], ◌∷◌, Option, none, some, str_eq,
  inl, inr, if◌then◌else◌,
}
use gpt_tools_mcp.Prelude.Result.{and_then, require, ok_or, or_error}
use gpt_tools_mcp.Context.{
  System, ErrorCode, context_mismatch, not_found, not_a_directory, symlink_escape, panicked,
  ContextResult, GitIdentity, PathIntent, read, write, command_cwd, allows_external, same_path,
  path_is_within,
}
use gpt_tools_mcp.Context.Git.{
  probe_git_identity_with_detached, is_ancestor, git_metadata_present, is_related_worktree,
}
use gpt_tools_mcp.Context.Resolve.{canonicalize_with_anchor, path_contains_symlink}
use gpt_tools_mcp.Context.Execution.{ExecutionContext, git_identity}

abbrev same_id : ℕ × ℕ → Option (ℕ × ℕ) → Bool
same_id id none = false
same_id id (some now) = now.0 == id.0 && now.1 == id.1

abbrev same_ids : System → List (String × (ℕ × ℕ)) → Bool
same_ids os [] = true
same_ids os ((path, id) ∷ ids) = same_id id (os.directory_id path) && same_ids os ids

-- The directories of a context with host access are the same objects.
abbrev directories_kept : System → Option (List (String × (ℕ × ℕ))) → Bool
directories_kept os none = false
directories_kept os (some ids) = same_ids os ids

abbrev is_no_error : Option ErrorCode → Bool
is_no_error none = true
is_no_error (some e) = false

abbrev probe_allows : System → ExecutionContext → Bool → ContextResult GitIdentity → Bool
unfolding same_path
probe_allows os ctx present (inl e) = not present
probe_allows os ctx present (inr identity) = same_path os identity.root ctx.execution_root

-- The check of the default directory.
unfoldable pub cwd_allowed : System → ExecutionContext → String → Bool
unfolding path_is_within same_path probe_git_identity_with_detached git_metadata_present
    probe_allows
cwd_allowed os ctx cwd =
    os.is_dir cwd
    && (path_is_within os ctx.execution_root cwd
        && (same_path os cwd ctx.execution_root
            || probe_allows os ctx (git_metadata_present os cwd)
                (probe_git_identity_with_detached os cwd ctx.host_access)))

-- The checks of `validate` before it compares the identity of the worktree.
unfoldable pub directories_valid : System → ExecutionContext → ContextResult String
unfolding same_path is_related_worktree cwd_allowed
directories_valid os ctx =
    and_then (or_error context_mismatch (ok_or not_found (os.canonicalize ctx.execution_root)))
      (λ active_root.
        require (os.is_dir active_root && same_path os active_root ctx.execution_root)
          context_mismatch
          (require (not ctx.host_access || directories_kept os ctx.host_directory_ids)
            context_mismatch
            (require (is_related_worktree os ctx.repository_root active_root) context_mismatch (
              require (is_no_error ctx.git_probe_error) context_mismatch (
                and_then
                  (or_error context_mismatch (ok_or not_found (os.canonicalize ctx.default_cwd)))
                  (λ cwd. require (cwd_allowed os ctx cwd) context_mismatch (inr active_root)))))))

abbrev pub same_identity : System → Bool → GitIdentity → GitIdentity → Bool
unfolding same_path
same_identity os any_branch actual expected =
    same_path os actual.root expected.root
    && (same_path os actual.git_dir expected.git_dir
        && (same_path os actual.git_common_dir expected.git_common_dir
            && (any_branch || str_eq actual.branch expected.branch)))

-- The observation of a new HEAD, which is the old one or descends from it.
unfoldable pub observe_head :
    System → String → GitIdentity → GitIdentity → ExecutionContext → ContextResult ExecutionContext
unfolding is_ancestor
observe_head os active_root actual expected ctx =
    if ctx.host_access
    then inr (record ctx { branch = some actual.branch; observed_head = some actual.head })
    else if str_eq actual.head expected.head
    then inr ctx
    else and_then (or_error context_mismatch (is_ancestor os active_root expected.head actual.head))
        (λ forward.
          require forward context_mismatch (inr (record ctx { observed_head = some actual.head })))

unfoldable pub compared :
    System → String → Option GitIdentity → ExecutionContext → ContextResult ExecutionContext
unfolding probe_git_identity_with_detached same_identity observe_head
compared os active_root none ctx = inl panicked
compared os active_root (some expected) ctx =
    and_then
      (or_error context_mismatch (probe_git_identity_with_detached os active_root ctx.host_access))
      (λ actual.
        require (same_identity os ctx.host_access actual expected) context_mismatch
          (observe_head os active_root actual expected ctx))

abbrev identity_valid :
    System → String → Option String → ExecutionContext → ContextResult ExecutionContext
unfolding compared
identity_valid os active_root none ctx = inr ctx
identity_valid os active_root (some git_dir) ctx = compared os active_root (git_identity ctx) ctx

-- `validate`: the context after it, which an error leaves as it was.
unfoldable pub validate : System → ExecutionContext → ContextResult ExecutionContext
unfolding directories_valid identity_valid
validate os ctx =
    and_then (directories_valid os ctx)
      (λ active_root. identity_valid os active_root ctx.git_dir ctx)

-- With host access a path that is read, written or made the default directory is not confined.
abbrev pub skips_containment : Bool → PathIntent → Bool
skips_containment false intent = false
skips_containment true read = true
skips_containment true write = true
skips_containment true command_cwd = true
skips_containment true _ = false

abbrev is_common : System → Option String → String → Bool
unfolding same_path
is_common os none common = false
is_common os (some own) common = same_path os own common

abbrev other_worktree : System → ExecutionContext → ContextResult GitIdentity → Bool
unfolding is_common
other_worktree os ctx (inl e) = false
other_worktree os ctx (inr identity) = is_common os ctx.git_common_dir identity.git_common_dir

-- The end of `validate_resolved_path` for a path that is outside the execution root.
unfoldable pub outside_path :
    System → ExecutionContext → PathIntent → String → String × String → ContextResult String
unfolding path_is_within path_contains_symlink probe_git_identity_with_detached other_worktree
outside_path os ctx intent path (resolved, anchor) =
    if path_is_within os ctx.execution_root path
    then inl (
        if path_contains_symlink os path ctx.execution_root
        then symlink_escape
        else context_mismatch)
    else if other_worktree os ctx (probe_git_identity_with_detached os anchor ctx.host_access)
    then inl context_mismatch
    else if allows_external intent && not (path_is_within os ctx.repository_root resolved)
    then inr resolved
    else inl context_mismatch

abbrev matches_expected : System → Option GitIdentity → GitIdentity → Bool
unfolding same_path
matches_expected os none identity = true
matches_expected os (some expected) identity =
    same_path os identity.git_dir expected.git_dir
    && (same_path os identity.git_common_dir expected.git_common_dir
        && str_eq identity.branch expected.branch)

abbrev owns : System → ExecutionContext → Bool → ContextResult GitIdentity → Bool
unfolding matches_expected same_path
owns os ctx present (inl e) = not present
owns os ctx present (inr identity) =
    same_path os identity.root ctx.execution_root && matches_expected os (git_identity ctx) identity

-- And for one inside it: its directory belongs to the same worktree.
unfoldable pub inside_path : System → ExecutionContext → String × String → ContextResult String
unfolding git_metadata_present probe_git_identity_with_detached owns
inside_path os ctx (resolved, anchor) =
    require
      (owns os ctx (git_metadata_present os anchor)
        (probe_git_identity_with_detached os anchor ctx.host_access))
      context_mismatch (inr resolved)

unfoldable pub contained_path :
    System → ExecutionContext → PathIntent → String → String × String → ContextResult String
unfolding path_is_within inside_path outside_path
contained_path os ctx intent path found =
    if skips_containment ctx.host_access intent
    then inr found.0
    else if path_is_within os ctx.execution_root found.0
    then inside_path os ctx found
    else outside_path os ctx intent path found

-- `validate_resolved_path`: the path, and the context that `validate` has left.
unfoldable pub validate_resolved_path :
    System → String → PathIntent → ExecutionContext → ContextResult String × ExecutionContext
unfolding validate canonicalize_with_anchor contained_path
validate_resolved_path os path intent ctx = elim (validate os ctx) [
  | inl e ↦ (inl e, ctx)
  | inr now ↦ (and_then (canonicalize_with_anchor os path) (contained_path os now intent path), now)
]

unfoldable pub with_cwd :
    System → ContextResult String × ExecutionContext → ContextResult Unit × ExecutionContext
unfolding path_is_within
with_cwd os (inl e, ctx) = (inl e, ctx)
with_cwd os (inr validated, ctx) =
    if path_is_within os ctx.execution_root validated
    then (inr tt, record ctx { default_cwd = validated })
    else (inl context_mismatch, ctx)

-- `set_default_cwd`.
unfoldable pub set_default_cwd :
    System → String → ExecutionContext → ContextResult Unit × ExecutionContext
unfolding validate_resolved_path with_cwd
set_default_cwd os path ctx = elim (ok_or not_found (os.canonicalize path)) [
  | inl e ↦ (inl e, ctx)
  | inr resolved ↦
      if os.is_dir resolved
      then with_cwd os (validate_resolved_path os resolved command_cwd ctx)
      else (inl not_a_directory, ctx)
]
