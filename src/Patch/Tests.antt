-- ===== src/Patch/Tests.antt =====
-- Small patches, and the theorems on them (src-tauri/src/tools/patch.rs).
use gpt_tools_mcp.Prelude.{
  ◌≡◌, ◌⊎◌, refl, List, [], ◌∷◌, ◌++◌, some, length, map, true, false, none, not, str_eq,
}
use gpt_tools_mcp.Prelude.Text.{codes}
use gpt_tools_mcp.Patch.{
  Text, Hunk, context, add, remove, ok, mismatch, hunk_old, apply_hunk, apply_hunks, trim_returns,
}
use gpt_tools_mcp.Patch.Parse.{parse_diff_path, parse_unified_diff, no_lines}
use gpt_tools_mcp.Patch.Print.{
  updated, added, deleted, Section, IsPrintable, print_section, print_patch, file_patch,
}
use gpt_tools_mcp.Patch.Document.{unlines, parse_unified_diff-print}
use gpt_tools_mcp.Patch.Commit.{
  FileSystem, Files, put, Staged, commit_staged_paths, restore_backups,
}
use gpt_tools_mcp.Prelude.Assoc.{get, insert, Distinct}
use gpt_tools_mcp.Patch.Splice.{hunk_new}
use gpt_tools_mcp.Patch.Search.{Occurs, IsFirst}
use gpt_tools_mcp.Patch.Whole.{apply_hunk_lem}

abbrev edit : Hunk
edit = record {
  lines = context (codes "b") ∷ remove (codes "c") ∷ add (codes "d") ∷ add (codes "e") ∷ [];
}

edits : apply_hunks (codes "a\nb\nc\n") (edit ∷ []) ≡ ok (codes "a\nb\nd\ne\n")
unfolding apply_hunks
edits = refl

refuses : apply_hunks (codes "a\nc\n") (edit ∷ []) ≡ mismatch
unfolding apply_hunks
refuses = refl

-- The second hunk means the second `x`; it is applied at the first.
repeats :
    apply_hunks (codes "x\ny\nx\n") (record { lines = remove (codes "x") ∷ [] } ∷ [])
    ≡ ok (codes "y\nx\n")
unfolding apply_hunks
repeats = refl

abbrev three : List Text
three = codes "a" ∷ codes "b" ∷ codes "c" ∷ []

apply_hunk_lem_example :
    ((before : List Text) × (after : List Text) × Occurs three (hunk_old edit.lines) before after
      × IsFirst three (hunk_old edit.lines) (length before)
      × (apply_hunk edit three ≡ ok (before ++ (hunk_new edit.lines ++ after))))
    ⊎ (((before after : List Text) → ¬ Occurs three (hunk_old edit.lines) before after)
        × (apply_hunk edit three ≡ mismatch))
apply_hunk_lem_example = apply_hunk_lem edit three

abbrev sections : List Section
sections =
    updated (codes "src/main.rs")
      (edit ∷ record { lines = add (codes "--- x") ∷ remove (codes "*** End Patch") ∷ [] } ∷ [])
    ∷ added (codes "notes.md") (add (codes "hello") ∷ []) []
    ∷ deleted (codes "old.txt")
    ∷ []

updated-IsPrintable : IsPrintable (
    updated
      (codes "src/main.rs")
      (edit ∷ record { lines = add (codes "--- x") ∷ remove (codes "*** End Patch") ∷ [] } ∷ []))
unfolding parse_diff_path print_section trim_returns
updated-IsPrintable = record {
  stable = refl;
  sound = (
    (refl, refl),
    (
      (refl, refl),
      (
        (refl, refl),
        (
          (refl, refl),
          ((refl, refl), ((refl, refl), ((refl, refl), ((refl, refl), ((refl, refl), tt))))),
        ),
      ),
    ),
  );
}

added-IsPrintable : IsPrintable (added (codes "notes.md") (add (codes "hello") ∷ []) [])
unfolding parse_diff_path print_section trim_returns
added-IsPrintable = record { stable = refl; sound = ((refl, refl), ((refl, refl), tt)) }

deleted-IsPrintable : IsPrintable (deleted (codes "old.txt"))
unfolding parse_diff_path print_section trim_returns
deleted-IsPrintable = record { stable = refl; sound = ((refl, refl), tt) }

parse_unified_diff-print_example :
    parse_unified_diff (unlines (print_patch sections)) ≡ map file_patch sections
parse_unified_diff-print_example =
    parse_unified_diff-print sections
      (updated-IsPrintable, (added-IsPrintable, (deleted-IsPrintable, tt)))

-- A hunk that removes the line `-- x` and adds `y`: the removed line is read as the header of
-- another file, and the added one is lost.
removed_dashes :
    parse_unified_diff (codes "--- a/f\n+++ b/f\n@@ -1 +1 @@\n--- x\n+y\n")
    ≡ record { path = codes "f"; hunks = no_lines ∷ []; is_new_file = false; is_deleted = false }
      ∷ record { path = codes "x"; hunks = []; is_new_file = false; is_deleted = false }
      ∷ []
unfolding parse_unified_diff
removed_dashes = refl

-- A disk on which `b` cannot be written.
abbrev stubborn : FileSystem
stubborn = record {
  reads = λ path. true;
  makes_parent = λ path. true;
  writes_temporary = λ path. true;
  replaces = λ path. not (str_eq path "b");
  removes = λ path. true;
  restores = λ path. true;
}

abbrev tree : Files
tree = put "a" (some (codes "one")) (put "c" (some (codes "three")) (λ path. none))

abbrev changes : Staged
changes = ("a", some (codes "two")) ∷ ("c", none) ∷ ("b", some (codes "new")) ∷ []

restored : (commit_staged_paths stubborn changes tree).0.files "a" ≡ some (codes "one")
unfolding commit_staged_paths restore_backups insert
restored = refl

changes-Distinct : Distinct changes
unfolding get
changes-Distinct = (refl, (refl, (refl, tt)))
