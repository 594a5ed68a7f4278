-- ===== src/ToolContext/Tests.antt =====
-- A patch in an execution context, on a concrete system.
use gpt_tools_mcp.Prelude.{
  String, ◌≡◌, refl, true, false, List, [], ◌∷◌, none, some, str_eq, inr, if◌then◌else◌,
}
use gpt_tools_mcp.Prelude.Text.{codes, codes_eq}
use gpt_tools_mcp.Context.{System, path_is_within}
use gpt_tools_mcp.Context.Tests.{linux, context}
use gpt_tools_mcp.Patch.{Text, FilePatch, add}
use gpt_tools_mcp.Patch.Commit.{Files, Staged, FileSystem}
use gpt_tools_mcp.Patch.Apply.{Calls, apply_files}
use gpt_tools_mcp.ToolContext.Confined.{in_context, apply_files-within}

-- Relative paths stand in /repo.
abbrev system : System
system = record linux {
  is_absolute = λ path. false;
  join = λ path name. if str_eq name "new.txt" then "/repo/new.txt" else name;
}

abbrev sound : FileSystem
sound = record {
  reads = λ path. true;
  makes_parent = λ path. true;
  writes_temporary = λ path. true;
  replaces = λ path. true;
  removes = λ path. true;
  restores = λ path. true;
}

abbrev calls : Calls
calls = record {
  resolve = λ path. none;
  host_access = false;
  full_access = false;
  file_system = sound;
  valid_at_start = true;
  writable = λ path. true;
  valid_at_commit = true;
  valid_at_verification = true;
  valid_at_end = true;
  reads_back = λ path. true;
}

abbrev text : Text → String
text path = if codes_eq path (codes "new.txt") then "new.txt" else "other"

abbrev files : Files
files = λ path. if str_eq path "/etc/hosts" then some (codes "localhost\n") else none

abbrev patches : List FilePatch
patches =
    record {
      path = codes "new.txt";
      hunks = record { lines = add (codes "one") ∷ [] } ∷ [];
      is_new_file = true;
      is_deleted = false;
    }
    ∷ []

abbrev done : Staged
done = ("/repo/new.txt", some (codes "one\n")) ∷ []

applies :
    (apply_files (in_context system context text calls) false false patches files).1 ≡ inr done
unfolding apply_files in_context
applies = refl

outside : path_is_within system "/repo" "/etc/hosts" ≡ false
unfolding path_is_within
outside = refl

apply_files-within_example :
    (apply_files (in_context system context text calls) false false patches files).0.files
      "/etc/hosts"
    ≡ files "/etc/hosts"
apply_files-within_example =
    apply_files-within system context text calls false patches files done "/etc/hosts" refl applies
      outside
