-- ===== src/Patch/Print.antt =====
-- The text of a patch in the form that `parse_codex_patch` of src-tauri/src/tools/patch.rs reads.
use gpt_tools_mcp.Prelude.{◌≡◌, true, false, List, [], ◌∷◌, ◌++◌, All, any, ◌==◌}
use gpt_tools_mcp.Prelude.Text.{codes}
use gpt_tools_mcp.Patch.{Text, FilePatch, Hunk, HunkLine, context, add, remove, trim_returns}
use gpt_tools_mcp.Patch.Parse.{parse_diff_path}

abbrev pub print_line : HunkLine → Text
print_line (context s) = b' ' ∷ s
print_line (add s) = b'+' ∷ s
print_line (remove s) = b'-' ∷ s

unfoldable pub print_lines : List HunkLine → List Text
print_lines [] = []
print_lines (l ∷ rest) = print_line l ∷ print_lines rest

-- The hunks that a line `@@` begins.
unfoldable pub print_hunks : List Hunk → List Text
unfolding print_lines
print_hunks [] = []
print_hunks (h ∷ rest) = codes "@@" ∷ (print_lines h.lines ++ print_hunks rest)

-- A section of the patch, for one file.
pub data Section : Type 0 where
  added : Text → List HunkLine → List Hunk → Section
  updated : Text → List Hunk → Section
  deleted : Text → Section

unfoldable pub print_section : Section → List Text
unfolding print_lines print_hunks
print_section (added path first rest) =
    (codes "*** Add File: " ++ path) ∷ (print_lines first ++ print_hunks rest)
print_section (updated path hunks) = (codes "*** Update File: " ++ path) ∷ print_hunks hunks
print_section (deleted path) = (codes "*** Delete File: " ++ path) ∷ []

-- The file that a section stands for.
abbrev pub file_patch : Section → FilePatch
file_patch (added path first rest) = record {
  path = path;
  hunks = record { lines = first } ∷ rest;
  is_new_file = true;
  is_deleted = false;
}
file_patch (updated path hunks) = record {
  path = path;
  hunks = hunks;
  is_new_file = false;
  is_deleted = false;
}
file_patch (deleted path) = record {
  path = path;
  hunks = [];
  is_new_file = false;
  is_deleted = true;
}

unfoldable pub print_sections : List Section → List Text
unfolding print_section
print_sections [] = []
print_sections (x ∷ rest) = print_section x ++ print_sections rest

unfoldable pub print_patch : List Section → List Text
unfolding print_sections
print_patch sections =
    codes "*** Begin Patch" ∷ (print_sections sections ++ (codes "*** End Patch" ∷ []))

-- A line that does not end in a carriage return and has no end of line in it.
abbrev pub IsLine : Text → Type 0
IsLine t = (trim_returns t ≡ t) × (any (λ c. c == 10) t ≡ false)

abbrev pub AreLines : List Text → Type 0
AreLines ts = All IsLine ts

abbrev pub path_of : Section → Text
path_of (added path first rest) = path
path_of (updated path hunks) = path
path_of (deleted path) = path

-- Paths as `parse_diff_path` leaves them, and lines that are lines.
pub record IsPrintable (x : Section) : Type 0 where
  pub stable : parse_diff_path (path_of x) ≡ path_of x
  pub sound : AreLines (print_section x)
