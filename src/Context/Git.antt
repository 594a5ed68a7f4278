-- ===== src/Context/Git.antt =====
-- What git says of a directory (src-tauri/src/tools/execution_context.rs).
use gpt_tools_mcp.Prelude.{
  ℕ, String, Bool, true, false, not, ◌&&◌, ◌||◌, List, [], ◌∷◌, Option, none, some, ◌==◌, any, inl,
  inr, if◌then◌else◌,
}
use gpt_tools_mcp.Prelude.Text.{trim, trimmed_lines, strip_prefix}
use gpt_tools_mcp.Prelude.Result.{and_then, require, ok_or}
use gpt_tools_mcp.Context.{
  System, GitOutput, not_run, output, FileKind, missing, regular, path_invalid,
  worktree_root_required, context_mismatch, ContextResult, GitIdentity, path_is_within,
}

-- `canonical_path` and `canonical_directory`.
abbrev pub canonical_path : System → String → ContextResult String
canonical_path os path = ok_or path_invalid (os.canonicalize path)

abbrev pub canonical_directory : System → String → ContextResult String
canonical_directory os path =
    and_then (canonical_path os path)
      (λ canonical. require (os.is_dir canonical) path_invalid (inr canonical))

abbrev has_code : ℕ → Option ℕ → Bool
has_code n none = false
has_code n (some code) = code == n

-- The identity from the four lines of `rev-parse` and the branch.
abbrev identity_of : System → List String → String → ContextResult GitIdentity
identity_of os (root ∷ git_dir ∷ git_common_dir ∷ head ∷ []) branch =
    and_then (canonical_directory os root) (λ root. and_then (canonical_path os git_dir) (λ git_dir.
      and_then (canonical_path os git_common_dir) (λ git_common_dir. inr (record {
        root = root;
        git_dir = git_dir;
        git_common_dir = git_common_dir;
        branch = branch;
        head = head;
      }))))
identity_of os _ branch = inl worktree_root_required

abbrev is_four : List String → Bool
is_four (a ∷ b ∷ c ∷ d ∷ []) = true
is_four _ = false

-- The run of `symbolic-ref`: the branch, which a detached HEAD has not.
unfoldable pub branch_of : Bool → GitOutput → ContextResult String
unfolding trim
branch_of allow_detached not_run = inl context_mismatch
branch_of allow_detached (output code stdout) =
    require (has_code 0 code || (allow_detached && has_code 1 code)) context_mismatch
      (inr (trim stdout))

abbrev identity_lines : GitOutput → ContextResult (List String)
unfolding trimmed_lines
identity_lines not_run = inl context_mismatch
identity_lines (output code stdout) =
    let lines = trimmed_lines stdout in
    require (has_code 0 code && is_four lines) worktree_root_required (inr lines)

-- `probe_git_identity_with_detached`; `probe_git_identity` does not allow a detached HEAD.
unfoldable pub probe_git_identity_with_detached : System → String → Bool → ContextResult GitIdentity
unfolding branch_of identity_lines
probe_git_identity_with_detached os path allow_detached =
    let rev_parse =
      "rev-parse" ∷ "--path-format=absolute" ∷ "--show-toplevel" ∷ "--absolute-git-dir"
      ∷ "--git-common-dir" ∷ "--verify" ∷ "HEAD" ∷ [] in
    let symbolic_ref = "symbolic-ref" ∷ "--quiet" ∷ "--short" ∷ "HEAD" ∷ [] in
    and_then (identity_lines (os.run_git path rev_parse)) (λ lines.
      and_then (branch_of allow_detached (os.run_git path symbolic_ref))
        (λ branch. identity_of os lines branch))

abbrev ancestry_of : GitOutput → ContextResult Bool
ancestry_of not_run = inl context_mismatch
ancestry_of (output code stdout) =
    if has_code 0 code
    then inr true
    else if has_code 1 code
    then inr false
    else inl context_mismatch

-- `is_ancestor`.
unfoldable pub is_ancestor : System → String → String → String → ContextResult Bool
is_ancestor os root ancestor descendant =
    ancestry_of (os.run_git root ("merge-base" ∷ "--is-ancestor" ∷ ancestor ∷ descendant ∷ []))

abbrev is_missing : FileKind → Bool
is_missing missing = true
is_missing _ = false

-- `git_metadata_present`.
unfoldable pub git_metadata_present : System → String → Bool
git_metadata_present os path =
    any (λ directory. not (is_missing (os.file_kind (os.join directory ".git"))))
      (os.ancestors path)

abbrev is_regular : FileKind → Bool
is_regular regular = true
is_regular _ = false

abbrev find_git_dir : List String → Option String
unfolding strip_prefix trim
find_git_dir [] = none
find_git_dir (line ∷ lines) =
    let rest = find_git_dir lines in
    elim (strip_prefix "gitdir:" line) [ none ↦ rest | some raw ↦ some (trim raw) ]

abbrev and_some : {A B : Type 0} → Option A → (A → Option B) → Option B
and_some none f = none
and_some (some a) f = f a

abbrev is_within_some : System → Option String → Option String → Bool
unfolding path_is_within
is_within_some os (some root) (some path) = path_is_within os root path
is_within_some os _ _ = false

-- The directory that a linked worktree's `.git` file names.
unfoldable pub linked_git_dir : System → String → Option String
unfolding trimmed_lines find_git_dir
linked_git_dir os execution_root =
    and_some (os.read_to_string (os.join execution_root ".git")) (λ contents.
      and_some (find_git_dir (trimmed_lines contents)) (λ git_dir.
        os.canonicalize
          (if os.is_absolute git_dir then git_dir else os.join execution_root git_dir)))

-- `is_related_worktree`.
unfoldable pub is_related_worktree : System → String → String → Bool
unfolding path_is_within linked_git_dir is_within_some
is_related_worktree os repository_root execution_root =
    path_is_within os repository_root execution_root
    || (is_regular (os.file_kind (os.join execution_root ".git"))
        && is_within_some os (os.canonicalize (os.join repository_root ".git"))
            (linked_git_dir os execution_root))
