-- ===== src/Context.antt =====
-- src-tauri/src/tools/execution_context.rs and src-tauri/src/mcp/workspace_context.rs: where tools may
-- work. `Git` reads the identity of a worktree, `Pin` is the lock of a conversation on a worktree,
-- and `Execution` checks the paths of tools. This file has the paths and the types.
-- Each operation sees one state of the file system and of git, a `System`.
pub mod Git
pub mod Pin
pub mod Forward
pub mod Execution
pub mod Validate
pub mod Resolve
pub mod Inside
pub mod Sound
pub mod NoPanic
pub mod Operations
pub mod Tests
use gpt_tools_mcp.Prelude.{
  ℕ, String, Bool, true, false, ◌||◌, ◌↔◌, ◌≡◌, ◌⊎◌, List, [], ◌∷◌, ◌++◌, map, Option,
  if◌then◌else◌, inl, inr, Bool-cases, arith,
}
use gpt_tools_mcp.Prelude.Text.{
  codes, codes_eq, codes_eq_iff, slashes, ascii_lower, trim_end_slashes, starts_with,
}
use gpt_tools_mcp.Prelude.Split.{IsPrefix, parts_of-IsPrefix, parts_of}

-- What a run of git gives: it could not be run to its end, or its exit code and its output.
pub data GitOutput : Type 0 where
  not_run : GitOutput
  output : Option ℕ → String → GitOutput

-- What `symlink_metadata` finds.
pub data FileKind : Type 0 where
  missing : FileKind
  unreadable : FileKind
  regular : FileKind
  directory : FileKind
  symlink : FileKind

-- The operating system, its paths, git, and SHA-256 in hexadecimal.
pub record System : Type 0 where
  pub windows : Bool
  pub canonicalize : String → Option String
  pub is_dir : String → Bool
  pub exists : String → Bool
  pub file_kind : String → FileKind
  pub read_to_string : String → Option String
  pub directory_id : String → Option (ℕ × ℕ)
  pub run_git : String → List String → GitOutput
  pub join : String → String → String
  pub is_absolute : String → Bool
  -- Whether a component of a path is `..`.
  pub has_parent_dir : String → Bool
  -- `replace('/', MAIN_SEPARATOR_STR)`.
  pub native_separators : String → String
  -- The path itself, its parent, and so on (`Path::ancestors`).
  pub ancestors : String → List String
  pub file_name : String → Option String
  -- The components of a path below another, if it lies below (`strip_prefix`).
  pub components_below : String → String → Option (List String)
  pub sha256_hex : List ℕ → String

pub data ErrorCode : Type 0 where
  path_invalid : ErrorCode
  worktree_root_required : ErrorCode
  context_mismatch : ErrorCode
  context_expired : ErrorCode
  protected_branch : ErrorCode
  not_found : ErrorCode
  not_a_directory : ErrorCode
  invalid_argument : ErrorCode
  path_outside_workspace : ErrorCode
  symlink_escape : ErrorCode
  -- An `expect` that fails.
  panicked : ErrorCode

abbrev pub ContextResult : Type 0 → Type 0
ContextResult A = ErrorCode ⊎ A

pub record GitIdentity : Type 0 where
  pub root : String
  pub git_dir : String
  pub git_common_dir : String
  pub branch : String
  pub head : String

pub data PathIntent : Type 0 where
  read : PathIntent
  write : PathIntent
  command_cwd : PathIntent
  git_target : PathIntent
  history : PathIntent
  harness : PathIntent

-- `allows_external`.
abbrev pub allows_external : PathIntent → Bool
allows_external read = true
allows_external _ = false

-- `path_key`, as code points.
unfoldable pub path_key : System → String → List ℕ
unfolding trim_end_slashes
path_key os path =
    let key = trim_end_slashes (slashes (codes path)) in
    if os.windows then map ascii_lower key else key

-- Equality of two keys.
unfoldable pub same_path : System → String → String → Bool
unfolding codes_eq path_key
same_path os a b = codes_eq (path_key os a) (path_key os b)

-- `path_is_within`.
unfoldable pub path_is_within : System → String → String → Bool
unfolding path_key codes_eq starts_with
path_is_within os root path =
    codes_eq (path_key os path) (path_key os root)
    || starts_with (path_key os root ++ (b'/' ∷ [])) (path_key os path)

starts-within :
    (a b : List ℕ)
    → (b ≡ a) ⊎ (starts_with (a ++ (b'/' ∷ [])) b ≡ true)
    → (codes_eq b a || starts_with (a ++ (b'/' ∷ [])) b) ≡ true
starts-within a b (inl e) = ground (arith, codes_eq_iff b a, e)
starts-within a b (inr h) = ground (arith, h)

within-starts :
    (a b : List ℕ)
    → (codes_eq b a || starts_with (a ++ (b'/' ∷ [])) b) ≡ true
    → (b ≡ a) ⊎ (starts_with (a ++ (b'/' ∷ [])) b ≡ true)
within-starts a b h = elim (Bool-cases (codes_eq b a)) [
  | inl e ↦ inl ((codes_eq_iff b a).0 e)
  | inr n ↦ inr (ground (arith, h, n))
]

-- A path is within a root exactly if the components of its key start with those of the root's key.
pub path_is_within_iff :
    (os : System) (root path : String)
    → (path_is_within os root path ≡ true)
      ↔ IsPrefix (parts_of b'/' (path_key os root)) (parts_of b'/' (path_key os path))
unfolding path_is_within
path_is_within_iff os root path =
    let a = path_key os root in
    let b = path_key os path in
    let prefix = parts_of-IsPrefix b'/' a b in
    (λ h. prefix.0 (within-starts a b h), λ h. starts-within a b (prefix.1 h))
