-- ===== src/Patch/Apply.antt =====
-- `apply_patch` of src-tauri/src/tools/patch.rs: the checks of the paths, the staging of the files, the
-- commit and the verification.
use gpt_tools_mcp.Prelude.{
  String, Bool, true, false, not, ◌&&◌, ◌||◌, List, [], ◌∷◌, map, Option, none, some, ◌⊎◌, inl, inr,
  any, if◌then◌else◌,
}
use gpt_tools_mcp.Prelude.Text.{codes, codes_eq, slashes, starts_with}
use gpt_tools_mcp.Prelude.Split.{parts_of}
use gpt_tools_mcp.Prelude.Assoc.{insert}
use gpt_tools_mcp.Prelude.Result.{and_then, require, ok_or}
use gpt_tools_mcp.Json.{Value, get_key, as_str, as_bool, or_default}
use gpt_tools_mcp.Patch.{Text, FilePatch, Applied, ok, mismatch, panic, apply_hunks}
use gpt_tools_mcp.Patch.Parse.{parse_unified_diff}
use gpt_tools_mcp.Patch.Commit
use gpt_tools_mcp.Patch.Commit.{
  Files, Staged, FileSystem, Disk, CommitError, Committed, restore_backups, commit_staged_paths,
  is_there,
}

abbrev first_part : Text → Text
unfolding parts_of
first_part path = (parts_of b'/' (slashes path)).0

-- `is_protected_repository_asset`.
unfoldable pub is_protected_repository_asset : Text → Bool
unfolding first_part codes_eq
is_protected_repository_asset path =
    codes_eq (first_part path) (codes ".git") || codes_eq (first_part path) (codes ".github")

abbrev last_of : Text → List Text → Text
last_of part [] = part
last_of part (next ∷ parts) = last_of next parts

abbrev last_part : Text → Text
unfolding parts_of
last_part path = let parts = parts_of b'/' (slashes path) in last_of parts.0 parts.1

abbrev critical_names : List Text
critical_names = map codes (
    ".gitignore" ∷ "Cargo.toml" ∷ "Cargo.lock" ∷ "package.json" ∷ "package-lock.json"
    ∷ "pnpm-lock.yaml" ∷ "tauri.conf.json" ∷ "pyproject.toml" ∷ [])

-- `is_critical_file`.
unfoldable pub is_critical_file : Text → Bool
unfolding is_protected_repository_asset last_part codes_eq starts_with
is_critical_file path =
    let name = last_part path in
    is_protected_repository_asset path
    || (any (codes_eq name) critical_names
        || any (λ p. starts_with p name) (map codes ("README" ∷ "LICENSE" ∷ "vite.config." ∷ [])))

-- A path that may be written, and whether it is there.
pub record Target : Type 0 where
  pub path : String
  pub existed : Bool

-- What `apply_patch` asks of the tool's context and of the system: the target of a path
-- (`resolve_for_write_from_default_cwd`), the file system of the commit, whether the context is
-- valid at the start, at the commit, at the verification and at the end, which paths may be written
-- at the commit (`validate_path`), and which files can be read back.
pub record Calls : Type 0 where
  pub resolve : Text → Option Target
  pub host_access : Bool
  pub full_access : Bool
  pub file_system : FileSystem
  pub valid_at_start : Bool
  pub writable : String → Bool
  pub valid_at_commit : Bool
  pub valid_at_verification : Bool
  pub valid_at_end : Bool
  pub reads_back : String → Bool

pub data PatchError : Type 0 where
  invalid_context : PatchError
  context_lost : PatchError
  patch_required : PatchError
  no_files : PatchError
  protected_asset : PatchError
  dangerous : PatchError
  unresolved : PatchError
  not_found : PatchError
  hunks_failed : PatchError
  not_writable : PatchError
  target_missing : PatchError
  commit_failed : CommitError → PatchError
  verification_failed : PatchError

abbrev pub PatchResult : Type 0 → Type 0
PatchResult A = PatchError ⊎ A

abbrev of_applied : Applied Text → PatchResult Text
of_applied (ok text) = inr text
of_applied mismatch = inl hunks_failed
of_applied panic = inl hunks_failed

-- `fs::read_to_string`.
abbrev read_text : Calls → Files → String → PatchResult Text
read_text c files path = require (c.file_system.reads path) not_found (ok_or not_found (files path))

-- One turn of the loop: a new file starts empty, another with its text on the disk.
unfoldable pub new_text : Calls → Files → FilePatch → String → PatchResult (Option Text)
unfolding apply_hunks
new_text c files fp path =
    and_then (if fp.is_new_file then inr [] else read_text c files path) (λ original.
      if fp.is_deleted
      then inr none
      else and_then (of_applied (apply_hunks original fp.hunks)) (λ updated. inr (some updated)))

unfoldable pub stage_at : Calls → Files → FilePatch → Staged → Target → PatchResult Staged
unfolding new_text insert
stage_at c files fp staged target =
    require (fp.is_new_file || target.existed) not_found
      (and_then (new_text c files fp target.path) (λ text. inr (insert target.path text staged)))

unfoldable pub stage_patches : Calls → Files → List FilePatch → Staged → PatchResult Staged
unfolding stage_at
stage_patches c files [] staged = inr staged
stage_patches c files (fp ∷ patches) staged =
    and_then (and_then (ok_or unresolved (c.resolve fp.path)) (stage_at c files fp staged))
      (stage_patches c files patches)

abbrev holds : Calls → Files → String → Option Text → Bool
unfolding codes_eq
holds c files path none = not (is_there (files path))
holds c files path (some expected) =
    c.reads_back path && elim (files path) [ none ↦ false | some actual ↦ codes_eq actual expected ]

-- `verify_staged_with_context`.
unfoldable pub verify_staged : Calls → Files → Staged → Bool
unfolding holds
verify_staged c files [] = true
verify_staged c files ((path, expected) ∷ staged) =
    holds c files path expected && verify_staged c files staged

-- By whether the verification found the staged texts, and whether the context is valid at the end.
unfoldable pub judged :
    Bool → Bool → FileSystem → Staged → Staged → Disk → Disk × PatchResult Staged
unfolding restore_backups
judged false valid fs staged backups disk =
    (record disk { files = restore_backups fs backups disk.files }, inl verification_failed)
judged true true fs staged backups disk = (disk, inr staged)
judged true false fs staged backups disk = (disk, inl context_lost)

-- The end of `apply_patch`, after the commit.
unfoldable pub verified : Calls → Staged → Disk × Committed → Disk × PatchResult Staged
unfolding verify_staged judged
verified c staged (disk, Commit.err e) = (disk, inl (commit_failed e))
verified c staged (disk, Commit.ok backups) =
    let fine = c.valid_at_verification && verify_staged c disk.files staged in
    judged fine c.valid_at_end c.file_system staged backups disk

abbrev pub untouched : Files → Disk
untouched files = record { files = files; temporary = [] }

-- The loop of `commit_staged`: every path may be written, and a file to delete is there.
unfoldable pub check_staged : Calls → Files → Staged → PatchResult (Unit {0})
check_staged c files [] = inr tt
check_staged c files ((path, text) ∷ staged) =
    require (c.writable path) not_writable (
      require (is_there text || is_there (files path)) target_missing (check_staged c files staged))

-- `commit_staged`, with `commit_staged_paths` that it ends in: the checks, the commit, and the end.
unfoldable pub commit_staged : Calls → Staged → Files → Disk × PatchResult Staged
unfolding check_staged verified commit_staged_paths
commit_staged c staged files =
    elim (and_then (check_staged c files staged)
      (λ u. require c.valid_at_commit invalid_context (inr u))) [
        | inl e ↦ (untouched files, inl e)
        | inr u ↦ verified c staged (commit_staged_paths c.file_system staged files)
      ]

abbrev is_empty_list : List FilePatch → Bool
is_empty_list [] = true
is_empty_list (fp ∷ patches) = false

-- The checks before any file is touched, and the staging.
unfoldable pub prepare : Calls → Bool → List FilePatch → Files → PatchResult Staged
unfolding stage_patches is_protected_repository_asset is_critical_file
prepare c confirm patches files = require (not (is_empty_list patches)) no_files (
    require (c.host_access || not (any (λ fp. is_protected_repository_asset fp.path) patches))
      protected_asset
      (require
        (confirm
          || (c.full_access || not (any (λ fp. fp.is_deleted && is_critical_file fp.path) patches)))
        dangerous (stage_patches c files patches [])))

-- `apply_patch` of the patches of a text.
unfoldable pub apply_files :
    Calls → Bool → Bool → List FilePatch → Files → Disk × PatchResult Staged
unfolding prepare commit_staged
apply_files c dry_run confirm patches files = elim (prepare c confirm patches files) [
  | inl e ↦ (untouched files, inl e)
  | inr staged ↦ if dry_run then (untouched files, inr staged) else commit_staged c staged files
]

-- `apply_patch`; `patch_check` is the same with `dry_run`.
unfoldable pub apply_patch : Calls → Value → Files → Disk × PatchResult Staged
unfolding get_key parse_unified_diff apply_files
apply_patch c args files =
    let dry_run = or_default false (as_bool (get_key "dry_run" args)) in
    let confirm = or_default false (as_bool (get_key "confirm" args)) in
    elim (require c.valid_at_start invalid_context
      (ok_or patch_required (as_str (get_key "patch" args)))) [
        | inl e ↦ (untouched files, inl e)
        | inr patch ↦ apply_files c dry_run confirm (parse_unified_diff (codes patch)) files
      ]
