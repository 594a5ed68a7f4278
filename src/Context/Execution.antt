-- ===== src/Context/Execution.antt =====
-- The directory that tools work in (src-tauri/src/tools/execution_context.rs).
use mathlib.Core.Option
use gpt_tools_mcp.Prelude.{
  ℕ, String, Bool, true, false, not, ◌||◌, List, [], ◌∷◌, ◌++◌, Option, none, some, inl, inr,
  if◌then◌else◌,
}
use gpt_tools_mcp.Prelude.Text.{codes}
use gpt_tools_mcp.Prelude.Result.{and_then, require, ok_or}
use gpt_tools_mcp.Context.{
  System, ErrorCode, worktree_root_required, context_mismatch, invalid_argument,
  path_outside_workspace, ContextResult, GitIdentity, path_key, same_path,
}
use gpt_tools_mcp.Context.Git.{
  probe_git_identity_with_detached, git_metadata_present, is_related_worktree,
}

pub record ExecutionContext : Type 0 where
  pub host_access : Bool
  pub host_directory_ids : Option (List (String × (ℕ × ℕ)))
  pub repository_root : String
  pub execution_root : String
  pub git_dir : Option String
  pub git_common_dir : Option String
  pub branch : Option String
  pub observed_head : Option String
  pub default_cwd : String
  pub git_probe_error : Option ErrorCode

-- `canonical_roots`.
unfoldable pub canonical_roots : System → String → String → ContextResult (String × String)
unfolding is_related_worktree
canonical_roots os repository_root execution_root =
    and_then (ok_or invalid_argument (os.canonicalize repository_root)) (λ repository_root.
      require (os.is_dir repository_root) invalid_argument (
        and_then (ok_or invalid_argument (os.canonicalize execution_root)) (λ execution_root.
          require (os.is_dir execution_root) invalid_argument (
            require (is_related_worktree os repository_root execution_root) path_outside_workspace
              (inr (repository_root, execution_root))))))

-- `from_parts`.
abbrev pub from_parts : String × String → Option GitIdentity → Option ErrorCode → ExecutionContext
from_parts roots identity error = record {
  host_access = false;
  host_directory_ids = none;
  repository_root = roots.0;
  execution_root = roots.1;
  git_dir = Option.map (λ i. i.git_dir) identity;
  git_common_dir = Option.map (λ i. i.git_common_dir) identity;
  branch = Option.map (λ i. i.branch) identity;
  observed_head = Option.map (λ i. i.head) identity;
  default_cwd = roots.1;
  git_probe_error = error;
}

abbrev is_root_required : ErrorCode → Bool
is_root_required worktree_root_required = true
is_root_required _ = false

-- What `for_workspace` keeps of the probe, by whether there is git metadata.
abbrev pub kept : Bool → ContextResult GitIdentity → Option GitIdentity × Option ErrorCode
kept present (inr identity) = (some identity, none)
kept present (inl e) = if is_root_required e || not present then (none, none) else (none, some e)

-- `for_workspace`.
unfoldable pub for_workspace : System → String → String → ContextResult ExecutionContext
unfolding canonical_roots probe_git_identity_with_detached git_metadata_present
for_workspace os repository_root execution_root =
    and_then (canonical_roots os repository_root execution_root) (λ roots.
      let probe =
        kept (git_metadata_present os roots.1)
          (probe_git_identity_with_detached os roots.1 false) in
      inr (from_parts roots probe.0 probe.1))

-- `with_git_identity`.
unfoldable pub with_git_identity :
    System → String → String → GitIdentity → ContextResult ExecutionContext
unfolding canonical_roots same_path is_related_worktree
with_git_identity os repository_root execution_root identity =
    and_then (canonical_roots os repository_root execution_root) (λ roots.
      require (same_path os identity.root roots.1) context_mismatch (
        require (is_related_worktree os roots.0 roots.1) context_mismatch
          (inr (from_parts roots (some identity) none))))

abbrev optional : Option String → List String
optional none = []
optional (some path) = path ∷ []

abbrev and_id :
    String → Option (ℕ × ℕ) → Option (List (String × (ℕ × ℕ))) → Option (List (String × (ℕ × ℕ)))
and_id path (some id) (some ids) = some ((path, id) ∷ ids)
and_id path _ _ = none

abbrev directory_ids : System → List String → Option (List (String × (ℕ × ℕ)))
directory_ids os [] = some []
directory_ids os (path ∷ paths) = and_id path (os.directory_id path) (directory_ids os paths)

-- `enable_host_access` takes an identity again where the first probe had failed.
abbrev pub probed_again : ContextResult GitIdentity → ExecutionContext → ExecutionContext
probed_again (inl e) ctx = ctx
probed_again (inr identity) ctx = record ctx {
  git_dir = some identity.git_dir;
  git_common_dir = some identity.git_common_dir;
  branch = some identity.branch;
  observed_head = some identity.head;
  git_probe_error = none;
}

unfoldable pub with_probe : System → Option ErrorCode → ExecutionContext → ExecutionContext
unfolding probe_git_identity_with_detached
with_probe os none ctx = ctx
with_probe os (some e) ctx =
    probed_again (probe_git_identity_with_detached os ctx.execution_root true) ctx

unfoldable pub enable_host_access : System → ExecutionContext → ExecutionContext
unfolding with_probe
enable_host_access os ctx =
    let probed = with_probe os ctx.git_probe_error ctx in
    record probed {
      host_access = true;
      host_directory_ids =
          directory_ids os
            (probed.execution_root ∷ optional probed.git_dir ++ optional probed.git_common_dir);
    }

abbrev key_of : System → Option String → List ℕ
unfolding path_key
key_of os none = []
key_of os (some path) = path_key os path

abbrev codes_of : Option String → List ℕ
codes_of none = []
codes_of (some s) = codes s

-- `fingerprint`.
unfoldable pub fingerprint : System → ExecutionContext → String
unfolding path_key key_of
fingerprint os ctx = os.sha256_hex (
    path_key os ctx.repository_root
    ++ (10 ∷ path_key os ctx.execution_root
        ++ (10 ∷ key_of os ctx.git_dir
            ++ (10 ∷ key_of os ctx.git_common_dir
                ++ (10 ∷ (if ctx.host_access then codes "host" else codes_of ctx.branch))))))

-- `git_identity`; `validate` makes the same record with `expect`.
abbrev pub git_identity_of :
    String → Option String → Option String → Option String → Option String → Option GitIdentity
git_identity_of root (some git_dir) (some git_common_dir) (some branch) (some head) = some (record {
  root = root;
  git_dir = git_dir;
  git_common_dir = git_common_dir;
  branch = branch;
  head = head;
})
git_identity_of root _ _ _ _ = none

abbrev pub git_identity : ExecutionContext → Option GitIdentity
git_identity ctx =
    git_identity_of ctx.execution_root ctx.git_dir ctx.git_common_dir ctx.branch ctx.observed_head
