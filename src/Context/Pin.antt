-- ===== src/Context/Pin.antt =====
-- The lock of a conversation on a Git worktree (src-tauri/src/mcp/workspace_context.rs). Instants are
-- seconds of the monotonic clock.
use gpt_tools_mcp.Prelude.{
  ℕ, ◌+◌, ◌*◌, String, Bool, true, false, not, ◌&&◌, ◌||◌, Option, none, some, ltb, leb, str_eq,
  inr, if◌then◌else◌,
}
use gpt_tools_mcp.Prelude.Text.{trim, is_empty, eq_ignore_ascii_case}
use gpt_tools_mcp.Prelude.Result.{and_then, require, ok_or, or_error}
use gpt_tools_mcp.Json.{Value, get_key, as_str, as_bool, as_u64, or_default}
use gpt_tools_mcp.Context.{
  System, path_invalid, worktree_root_required, context_mismatch, context_expired, protected_branch,
  ContextResult, GitIdentity, same_path, path_is_within,
}
use gpt_tools_mcp.Context.Git.{canonical_directory, probe_git_identity_with_detached, is_ancestor}

abbrev pub default_ttl_minutes : ℕ
default_ttl_minutes = 120

abbrev pub min_ttl_minutes : ℕ
min_ttl_minutes = 5

abbrev pub max_ttl_minutes : ℕ
max_ttl_minutes = 480

pub record PinOptions : Type 0 where
  pub path : String
  pub expected_branch : Option String
  pub ttl : ℕ
  pub allow_protected_branch : Bool
  pub confirm : Bool

-- `map(str::trim).filter(|value| !value.is_empty())`.
abbrev pub not_blank : Option String → Option String
unfolding trim is_empty
not_blank none = none
not_blank (some s) = if is_empty (trim s) then none else some (trim s)

-- `expires_in_minutes`: a value that is no natural number is refused, also `null`.
abbrev pub ttl_minutes : Option Value → ContextResult ℕ
ttl_minutes none = inr default_ttl_minutes
ttl_minutes (some v) = ok_or path_invalid (as_u64 (some v))

-- `PinOptions::from_value`.
unfoldable pub from_value : Value → ContextResult PinOptions
unfolding get_key not_blank
from_value args = and_then (ok_or path_invalid (not_blank (as_str (get_key "path" args)))) (λ path.
    and_then (ttl_minutes (get_key "expires_in_minutes" args)) (λ minutes.
      require (leb min_ttl_minutes minutes && leb minutes max_ttl_minutes) path_invalid (
        inr (record {
          path = path;
          expected_branch = not_blank (as_str (get_key "expected_branch" args));
          ttl = minutes * 60;
          allow_protected_branch =
              or_default false (as_bool (get_key "allow_protected_branch" args));
          confirm = or_default false (as_bool (get_key "confirm" args));
        }))))

pub record WorkspaceContextPin : Type 0 where
  pub host_access : Bool
  pub configured_root : String
  pub active_root : String
  pub git_dir : String
  pub git_common_dir : String
  pub branch : String
  pub initial_head : String
  pub last_head : String
  pub source : String
  pub pinned_at : ℕ
  pub expires_at : ℕ

-- `is_protected_branch`.
unfoldable pub is_protected_branch : String → Bool
unfolding eq_ignore_ascii_case
is_protected_branch branch =
    eq_ignore_ascii_case branch "main" || eq_ignore_ascii_case branch "master"

abbrev expects : Option String → String → Bool
expects none branch = true
expects (some expected) branch = str_eq expected branch

-- `create_for_access`.
unfoldable pub create_for_access :
    System → ℕ → String → PinOptions → String → Bool → ContextResult WorkspaceContextPin
unfolding path_is_within probe_git_identity_with_detached same_path is_protected_branch
create_for_access os now configured_root options source host_access =
    and_then (canonical_directory os configured_root) (λ configured_root.
      let candidate =
        if os.is_absolute options.path
        then options.path
        else os.join configured_root options.path in
      and_then (canonical_directory os candidate) (λ active_root.
        require (path_is_within os configured_root active_root) path_invalid (
          and_then (probe_git_identity_with_detached os active_root host_access) (λ identity.
            require (same_path os identity.root active_root) worktree_root_required (
              require (expects options.expected_branch identity.branch) context_mismatch (
                require
                  (host_access
                    || (not (is_protected_branch identity.branch)
                        || (options.allow_protected_branch && options.confirm)))
                  protected_branch
                  (inr (record {
                    host_access = host_access;
                    configured_root = configured_root;
                    active_root = active_root;
                    git_dir = identity.git_dir;
                    git_common_dir = identity.git_common_dir;
                    branch = identity.branch;
                    initial_head = identity.head;
                    last_head = identity.head;
                    source = source;
                    pinned_at = now;
                    expires_at = now + options.ttl;
                  }))))))))

unfoldable pub same_worktree : System → GitIdentity → WorkspaceContextPin → Bool
unfolding same_path
same_worktree os identity pin =
    same_path os identity.root pin.active_root
    && (same_path os identity.git_dir pin.git_dir
        && (same_path os identity.git_common_dir pin.git_common_dir
            && (pin.host_access || str_eq identity.branch pin.branch)))

-- The end of `validate`: the new HEAD is the last one or descends from it.
unfoldable pub accept_head :
    System → GitIdentity → WorkspaceContextPin → ContextResult WorkspaceContextPin
unfolding is_ancestor
accept_head os identity pin =
    if pin.host_access
    then inr (record pin { branch = identity.branch; last_head = identity.head })
    else if str_eq identity.head pin.last_head
    then inr pin
    else and_then (is_ancestor os pin.active_root pin.last_head identity.head) (λ forward.
      require forward context_mismatch (inr (record pin { last_head = identity.head })))

-- What git says of the pinned directory now.
unfoldable pub observed : System → WorkspaceContextPin → ContextResult GitIdentity
unfolding probe_git_identity_with_detached
observed os pin =
    and_then (or_error context_mismatch (canonical_directory os pin.active_root))
      (λ active_root. probe_git_identity_with_detached os active_root pin.host_access)

-- `validate`: the pin after it, which an error leaves as it was.
unfoldable pub validate : System → ℕ → WorkspaceContextPin → ContextResult WorkspaceContextPin
unfolding same_worktree observed accept_head
validate os now pin = require (ltb now pin.expires_at) context_expired (
    and_then (observed os pin) (λ identity.
      require (same_worktree os identity pin) context_mismatch (accept_head os identity pin)))
