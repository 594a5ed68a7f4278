-- ===== src/Patch/Sections.antt =====
-- The sections of a printed patch under `parse_codex_patch` of src-tauri/src/tools/patch.rs.
use gpt_tools_mcp.Prelude.{
  ◌≡◌, refl, sym, ap, ◌∙◌, true, false, List, [], ◌∷◌, ◌++◌, map, Option, none, some, All,
}
use gpt_tools_mcp.Prelude.Text.{codes, codes_eq}
use gpt_tools_mcp.Patch.{Text, FilePatch, Hunk}
use gpt_tools_mcp.Patch.Parse.{
  Parser, no_lines, finish_codex_file, push_hunk, codex_line, codex_lines, codex_header, file_of,
}
use gpt_tools_mcp.Patch.Strings.{strip_prefix}
use gpt_tools_mcp.Patch.Print.{
  print_lines, print_hunks, Section, added, updated, deleted, print_section, file_patch,
  print_sections, IsPrintable,
}
use gpt_tools_mcp.Patch.RoundTrip.{
  inside, All-left, All-right, append_nil, append_assoc, codex_lines-append, codex_lines-cons,
  lines-push, after, hunks-parse,
}

-- The parser with a file that a header has begun.
abbrev begun : Parser → FilePatch → Option Hunk → Parser
begun p file h = record {
  files = (finish_codex_file p).files;
  current = some file;
  current_hunk = h;
}

header-added :
    (p : Parser) (path : Text)
    → codex_line p (codes "*** Add File: " ++ path)
      ≡ begun p (file_of true false path) (some no_lines)
unfolding codex_line codes_eq codex_header strip_prefix finish_codex_file
header-added p path = refl

header-updated :
    (p : Parser) (path : Text)
    → codex_line p (codes "*** Update File: " ++ path) ≡ begun p (file_of false false path) none
unfolding codex_line codes_eq codex_header strip_prefix finish_codex_file
header-updated p path = refl

header-deleted :
    (p : Parser) (path : Text)
    → codex_line p (codes "*** Delete File: " ++ path) ≡ begun p (file_of false true path) none
unfolding codex_line codes_eq codex_header strip_prefix finish_codex_file
header-deleted p path = refl

-- The hunks that a file has when the parser closes it.
abbrev hunks_of : Option Hunk → List Hunk
hunks_of none = []
hunks_of (some h) = h ∷ []

hunks-push :
    (h : Option Hunk) (file : FilePatch) (hs : List Hunk)
    → record (push_hunk h file) { hunks = (push_hunk h file).hunks ++ hs }
      ≡ record file { hunks = file.hunks ++ (hunks_of h ++ hs) }
hunks-push none file hs = refl
hunks-push (some x) file hs =
    ap (λ l. record file { hunks = l }) (append_assoc file.hunks (x ∷ []) hs)

finish-after :
    (files : List FilePatch) (file : FilePatch) (h : Option Hunk) (hs : List Hunk)
    → (finish_codex_file (after files file h hs)).files
      ≡ files ++ (record file { hunks = file.hunks ++ (hunks_of h ++ hs) } ∷ [])
unfolding finish_codex_file after
finish-after files file none [] =
    ap (λ l. files ++ (record file { hunks = l } ∷ [])) (sym (append_nil file.hunks))
finish-after files file (some x) [] = refl
finish-after files file h (x ∷ hs) =
    finish-after files (push_hunk h file) (some x) hs
    ∙ ap (λ f. files ++ (f ∷ [])) (hunks-push h file (x ∷ hs))

section-parse :
    (p : Parser) (x : Section)
    → IsPrintable x
    → (finish_codex_file (codex_lines p (print_section x))).files
      ≡ (finish_codex_file p).files ++ (file_patch x ∷ [])
unfolding print_section
section-parse p (added path first rest) v =
    let ls = print_lines first ++ print_hunks rest in
    let done = (finish_codex_file p).files in
    let file = file_of true false path in
    let read : codex_lines p (print_section (added path first rest))
        ≡ after done file (some (record { lines = first })) rest =
      codex_lines-cons p (codes "*** Add File: " ++ path) ls v.sound.0
      ∙ ap (λ q. codex_lines q ls) (header-added p path)
      ∙ codex_lines-append (inside done file []) (print_lines first) (print_hunks rest)
      ∙ ap (λ q. codex_lines q (print_hunks rest))
          (lines-push done file [] first refl
            (All-left (print_lines first) (print_hunks rest) v.sound.1))
      ∙ hunks-parse done file (some (record { lines = first })) rest refl
          (All-right (print_lines first) (print_hunks rest) v.sound.1) in
    ap (λ q. (finish_codex_file q).files) read
    ∙ finish-after done file (some (record { lines = first })) rest
    ∙ ap (λ u. done ++ (record (file_patch (added path first rest)) { path = u } ∷ [])) v.stable
section-parse p (updated path hunks) v =
    let done = (finish_codex_file p).files in
    let file = file_of false false path in
    let read : codex_lines p (print_section (updated path hunks)) ≡ after done file none hunks =
      codex_lines-cons p (codes "*** Update File: " ++ path) (print_hunks hunks) v.sound.0
      ∙ ap (λ q. codex_lines q (print_hunks hunks)) (header-updated p path)
      ∙ hunks-parse done file none hunks refl v.sound.1 in
    ap (λ q. (finish_codex_file q).files) read
    ∙ finish-after done file none hunks
    ∙ ap (λ u. done ++ (record (file_patch (updated path hunks)) { path = u } ∷ [])) v.stable
section-parse p (deleted path) v =
    let done = (finish_codex_file p).files in
    let file = file_of false true path in
    ap (λ q. (finish_codex_file q).files)
      (codex_lines-cons p (codes "*** Delete File: " ++ path) [] v.sound.0
        ∙ ap (λ q. codex_lines q []) (header-deleted p path)
        ∙ hunks-none done file)
    ∙ finish-after done file none []
    ∙ ap (λ u. done ++ (record (file_patch (deleted path)) { path = u } ∷ [])) v.stable
  where
    hunks-none :
        (files : List FilePatch) (file : FilePatch)
        → codex_lines (record { files = files; current = some file; current_hunk = none }) []
          ≡ after files file none []
    hunks-none files file = unfold codex_lines after in refl

pub sections-parse :
    (p : Parser) (xs : List Section)
    → All IsPrintable xs
    → (finish_codex_file (codex_lines p (print_sections xs))).files
      ≡ (finish_codex_file p).files ++ map file_patch xs
unfolding print_sections
sections-parse p [] v = unfold codex_lines in sym (append_nil (finish_codex_file p).files)
sections-parse p (x ∷ xs) v =
    let done = (finish_codex_file p).files in
    ap (λ q. (finish_codex_file q).files)
      (codex_lines-append p (print_section x) (print_sections xs))
    ∙ sections-parse (codex_lines p (print_section x)) xs v.1
    ∙ ap (λ l. l ++ map file_patch xs) (section-parse p x v.0)
    ∙ append_assoc done (file_patch x ∷ []) (map file_patch xs)
