-- ===== src/Patch/Twice.antt =====
-- A patch with two sections for one file (src-tauri/src/tools/patch.rs, `apply_patch`).
use gpt_tools_mcp.Prelude.{
  String, ◌≡◌, ◌≢◌, refl, true, false, List, [], ◌∷◌, none, some, str_eq, inl, inr, if◌then◌else◌,
}
use gpt_tools_mcp.Prelude.Text.{codes}
use gpt_tools_mcp.Patch.{FilePatch, add, remove}
use gpt_tools_mcp.Patch.Commit.{Files, Staged, FileSystem}
use gpt_tools_mcp.Patch.Written.{staged_at}
use gpt_tools_mcp.Patch.Apply.{
  Calls, context_lost, verification_failed, apply_files, is_critical_file,
  is_protected_repository_asset,
}
use gpt_tools_mcp.Patch.Outcome.{last_text, apply_files_lem}
use gpt_tools_mcp.Patch.Refused.{apply_files_refused}

abbrev files : Files
files = λ path. if str_eq path "a" then some (codes "one\ntwo\n") else none

abbrev sound : FileSystem
sound = record {
  reads = λ path. true;
  makes_parent = λ path. true;
  writes_temporary = λ path. true;
  replaces = λ path. true;
  removes = λ path. true;
  restores = λ path. true;
}

abbrev calls : Calls
calls = record {
  resolve = λ path. some (record { path = "a"; existed = true });
  host_access = false;
  full_access = false;
  file_system = sound;
  valid_at_start = true;
  writable = λ path. true;
  valid_at_commit = true;
  valid_at_verification = true;
  valid_at_end = true;
  reads_back = λ path. true;
}

abbrev change : String → String → FilePatch
change old new = record {
  path = codes "a";
  hunks = record { lines = remove (codes old) ∷ add (codes new) ∷ [] } ∷ [];
  is_new_file = false;
  is_deleted = false;
}

abbrev patches : List FilePatch
patches = change "one" "1" ∷ change "two" "2" ∷ []

abbrev done : Staged
done = ("a", some (codes "one\n2\n")) ∷ []

-- The change of the first section is lost.
applies : (apply_files calls false false patches files).1 ≡ inr done
unfolding apply_files
applies = refl

apply_files_example :
    (apply_files calls false false patches files).0.files "a"
    ≡ staged_at (last_text calls files patches "a") (files "a")
apply_files_example = apply_files_lem calls false patches files done applies "a"

-- A verification that cannot read the files back.
abbrev blind : Calls
blind = record calls { reads_back = λ path. false }

refuses : (apply_files blind false false patches files).1 ≡ inl verification_failed
unfolding apply_files
refuses = refl

not_lost : verification_failed ≢ context_lost
not_lost h = cc

apply_files_refused_example : (apply_files blind false false patches files).0.files "a" ≡ files "a"
apply_files_refused_example =
    apply_files_refused blind false patches files verification_failed (λ path. refl) (λ path. refl)
      not_lost refuses "a"

protects : is_protected_repository_asset (codes ".git\\config") ≡ true
unfolding is_protected_repository_asset
protects = refl

-- A path that starts with the current directory is not recognised.
dot_passes : is_protected_repository_asset (codes "./.github/workflows/ci.yml") ≡ false
unfolding is_protected_repository_asset
dot_passes = refl

critical : is_critical_file (codes "web/README.md") ≡ true
unfolding is_critical_file
critical = refl
