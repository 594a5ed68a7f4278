-- ===== src/Patch/Parse.antt =====
-- src-tauri/src/tools/patch.rs: the two parsers of a patch, `parse_unified_diff` and
-- `parse_codex_patch`, as machines that read one line at a time.
use gpt_tools_mcp.Prelude.{
  Bool, true, false, not, ◌&&◌, ◌||◌, List, [], ◌∷◌, ◌++◌, Option, none, some, any, map, ◌==◌,
  if◌then◌else◌,
}
use gpt_tools_mcp.Prelude.Text.{codes, codes_eq, is_whitespace}
use gpt_tools_mcp.Patch.{Text, FilePatch, Hunk, context, add, remove, trim_returns, is_nil}
use gpt_tools_mcp.Patch.Strings.{
  lines, strip_prefix, starts_with, contains, trim_left, trim_right, first_of, or_text,
}

-- `parse_diff_path`.
unfoldable pub parse_diff_path : Text → Text
unfolding trim_left trim_right strip_prefix codes_eq is_whitespace
parse_diff_path raw =
    let trimmed = trim_right (trim_left raw) in
    let path =
      or_text trimmed
        (first_of (strip_prefix (codes "a/") trimmed) (strip_prefix (codes "b/") trimmed)) in
    if codes_eq path (codes "/dev/null") then [] else map (λ c. if c == b'\\' then b'/' else c) path

-- The three variables of the loops.
pub record Parser : Type 0 where
  pub files : List FilePatch
  pub current : Option FilePatch
  pub current_hunk : Option Hunk

abbrev pub fresh : Parser
fresh = record { files = []; current = none; current_hunk = none }

abbrev pub push_hunk : Option Hunk → FilePatch → FilePatch
push_hunk none file = file
push_hunk (some hunk) file = record file { hunks = file.hunks ++ (hunk ∷ []) }

abbrev pub push_file : Option FilePatch → List FilePatch → List FilePatch
push_file none files = files
push_file (some file) files = files ++ (file ∷ [])

-- `if let Some(h) = current_hunk.take()` with its body.
abbrev pub close_hunk : Parser → Parser
close_hunk p = record p {
  current = elim p.current [ none ↦ none | some file ↦ some (push_hunk p.current_hunk file) ];
  current_hunk = none;
}

-- `finish_codex_file`, which is also the end of `parse_unified_diff`.
unfoldable pub finish_codex_file : Parser → Parser
finish_codex_file p =
    let q = close_hunk p in record q { files = push_file q.current q.files; current = none }

-- What a line of a hunk adds to it.
unfoldable pub push_line : Text → Hunk → Hunk
push_line [] hunk = record { lines = hunk.lines ++ (context [] ∷ []) }
push_line (c ∷ rest) hunk =
    if c == b'+'
    then record { lines = hunk.lines ++ (add rest ∷ []) }
    else if c == b'-'
    then record { lines = hunk.lines ++ (remove rest ∷ []) }
    else if c == b' '
    then record { lines = hunk.lines ++ (context rest ∷ []) }
    else hunk

abbrev pub no_lines : Hunk
no_lines = record { lines = [] }

abbrev pub file_of : Bool → Bool → Text → FilePatch
file_of is_new_file is_deleted path = record {
  path = parse_diff_path path;
  hunks = [];
  is_new_file = is_new_file;
  is_deleted = is_deleted;
}

-- The branch of `+++ `: the path after the change, and whether the file goes.
unfoldable pub new_path : Text → Text → FilePatch → FilePatch
unfolding contains parse_diff_path codes_eq
new_path line rest file =
    let path = parse_diff_path rest in
    record file {
      path =
          if not (is_nil path) && not (codes_eq path (codes "/dev/null")) then path else file.path;
      is_deleted = file.is_deleted || contains (codes "/dev/null") line;
    }

abbrev pub map_option {ℓ κ} : {A : Type ℓ} {B : Type κ} → (A → B) → Option A → Option B
map_option f none = none
map_option f (some a) = some (f a)

-- A line of `parse_unified_diff` that is no header of a file.
unfoldable pub unified_body : Parser → Text → Parser
unfolding push_line strip_prefix
unified_body p line =
    if starts_with (codes "@@") line
    then record (close_hunk p) { current_hunk = some no_lines }
    else record p { current_hunk = map_option (push_line line) p.current_hunk }

-- One turn of the loop of `parse_unified_diff`.
unfoldable pub unified_line : Parser → Text → Parser
unfolding finish_codex_file unified_body new_path strip_prefix contains
unified_line p line = elim (strip_prefix (codes "--- ") line) [
  | some rest ↦ record (finish_codex_file p) {
    current = some (file_of (contains (codes "/dev/null") line) false rest);
  }
  | none ↦ elim (strip_prefix (codes "+++ ") line) [
    | some rest ↦ record p { current = map_option (new_path line rest) p.current }
    | none ↦ unified_body p line
  ]
]

-- The new file of `*** Add File: `, `*** Update File: ` or `*** Delete File: `, and its first hunk.
unfoldable pub codex_header : Text → Option (FilePatch × Option Hunk)
unfolding strip_prefix parse_diff_path
codex_header line = elim (strip_prefix (codes "*** Add File: ") line) [
  | some path ↦ some (file_of true false path, some no_lines)
  | none ↦ elim (strip_prefix (codes "*** Update File: ") line) [
    | some path ↦ some (file_of false false path, none)
    | none ↦ elim (strip_prefix (codes "*** Delete File: ") line) [
      | some path ↦ some (file_of false true path, none)
      | none ↦ none
    ]
  ]
]

abbrev or_new : Option Hunk → Hunk
or_new none = no_lines
or_new (some hunk) = hunk

abbrev pub codex_push : Parser → Text → Option FilePatch → Parser
codex_push p line none = p
codex_push p line (some file) =
    if file.is_deleted
    then p
    else record p { current_hunk = some (push_line line (or_new p.current_hunk)) }

-- A line of `parse_codex_patch` that is no header.
unfoldable pub codex_body : Parser → Text → Parser
unfolding push_line strip_prefix
codex_body p line =
    if starts_with (codes "@@") line
    then record (close_hunk p) { current_hunk = some no_lines }
    else codex_push p line p.current

abbrev pub codex_start : Parser → Text → Option (FilePatch × Option Hunk) → Parser
codex_start p line none = codex_body p line
codex_start p line (some (file, hunk)) = record (finish_codex_file p) {
  current = some file;
  current_hunk = hunk;
}

-- One turn of the loop of `parse_codex_patch`, on the line without its carriage returns.
unfoldable pub codex_line : Parser → Text → Parser
unfolding finish_codex_file codex_header codex_body codes_eq
codex_line p line =
    if codes_eq line (codes "*** Begin Patch")
    then p
    else if codes_eq line (codes "*** End Patch")
    then finish_codex_file p
    else codex_start p line (codex_header line)

unfoldable pub codex_lines : Parser → List Text → Parser
unfolding codex_line trim_returns
codex_lines p [] = p
codex_lines p (raw ∷ rest) = codex_lines (codex_line p (trim_returns raw)) rest

unfoldable pub unified_lines : Parser → List Text → Parser
unfolding unified_line
unified_lines p [] = p
unified_lines p (line ∷ rest) = unified_lines (unified_line p line) rest

-- `parse_codex_patch`.
unfoldable pub parse_codex_patch : Text → List FilePatch
unfolding codex_lines lines finish_codex_file
parse_codex_patch patch = (finish_codex_file (codex_lines fresh (lines patch))).files

-- `parse_unified_diff`; it has no error.
unfoldable pub parse_unified_diff : Text → List FilePatch
unfolding parse_codex_patch unified_lines lines finish_codex_file trim_returns codes_eq
parse_unified_diff patch =
    if any (λ line. codes_eq (trim_returns line) (codes "*** Begin Patch")) (lines patch)
    then parse_codex_patch patch
    else (finish_codex_file (unified_lines fresh (lines patch))).files
