-- ===== src/Policy/Scan.antt =====
-- Reading the text of a command (src-tauri/src/tools/policy.rs).
use gpt_tools_mcp.Prelude.{
  ℕ, Bool, true, false, ◌&&◌, ◌||◌, ◌==◌, List, [], ◌∷◌, map, any, if◌then◌else◌,
}
use gpt_tools_mcp.Prelude.Text.{
  codes, codes_eq, slashes, ascii_lower, starts_with, contains, contains_char, is_whitespace,
}
use gpt_tools_mcp.Policy.{Text, Matchers}

-- The state of the scanner: outside quotes, inside single or double quotes, each also after a
-- backslash where that has a meaning.
pub data Quote : Type 0 where
  plain : Quote
  plain_escaped : Quote
  single : Quote
  double : Quote
  double_escaped : Quote

-- The state after a character.
abbrev pub next_quote : Quote → ℕ → Quote
next_quote plain c =
    if c == b'\\'
    then plain_escaped
    else if c == b'\''
    then single
    else if c == b'"'
    then double
    else plain
next_quote plain_escaped c = plain
next_quote single c = if c == b'\'' then plain else single
next_quote double c = if c == b'\\' then double_escaped else if c == b'"' then plain else double
next_quote double_escaped c = double

abbrev pub opens_expansion : Text → Bool
opens_expansion [] = false
opens_expansion (c ∷ rest) = c == b'(' || c == b'{'

-- An operator of the shell, with what follows it.
unfoldable pub is_operator : ℕ → Text → Bool
is_operator c rest =
    c == b';'
    || (c == b'&'
        || (c == b'|'
            || (c == b'>' || (c == b'<' || (c == b'`' || (c == b'$' && opens_expansion rest))))))

abbrev pub is_plain : Quote → Bool
is_plain plain = true
is_plain _ = false

-- The loop of `has_forbidden_shell_syntax`.
unfoldable pub finds_operator : Quote → Text → Bool
unfolding is_operator
finds_operator q [] = false
finds_operator q (c ∷ rest) =
    (is_plain q && is_operator c rest) || finds_operator (next_quote q c) rest

-- `has_forbidden_shell_syntax`.
unfoldable pub has_forbidden_shell_syntax : Text → Bool
unfolding finds_operator
has_forbidden_shell_syntax command =
    contains_char (λ c. c == 13 || c == 10) command || finds_operator plain command

-- `command_contains_external_path`.
unfoldable pub command_contains_external_path : Matchers → Text → Bool
unfolding contains
command_contains_external_path m command =
    let normalized = slashes command in
    contains (codes "../") normalized
    || (contains (codes "..\\") normalized
        || (m.rooted_argument normalized || m.drive_argument normalized))

-- `split_whitespace`: the words between blanks, of which the first may be empty here.
abbrev join_word : ℕ → List Text → List Text
join_word c [] = (c ∷ []) ∷ []
join_word c (word ∷ words) = (c ∷ word) ∷ words

unfoldable pub between_blanks : Text → List Text
unfolding is_whitespace
between_blanks [] = [] ∷ []
between_blanks (c ∷ s) =
    let rest = between_blanks s in if is_whitespace c then [] ∷ rest else join_word c rest

abbrev is_quote_mark : ℕ → Bool
is_quote_mark c = c == b'\'' || (c == b'"' || (c == b'`' || (c == b',' || c == b';')))

unfoldable pub trim_start_marks : Text → Text
trim_start_marks [] = []
trim_start_marks (c ∷ s) = let rest = trim_start_marks s in if is_quote_mark c then rest else c ∷ s

abbrev keep_unless_mark : ℕ → Text → Text
keep_unless_mark c [] = if is_quote_mark c then [] else c ∷ []
keep_unless_mark c (d ∷ rest) = c ∷ d ∷ rest

unfoldable pub trim_end_marks : Text → Text
trim_end_marks [] = []
trim_end_marks (c ∷ s) = keep_unless_mark c (trim_end_marks s)

abbrev without_dot : Text → Text
without_dot (c ∷ d ∷ s) = if c == b'.' && d == b'/' then s else c ∷ d ∷ s
without_dot s = s

-- A word that names `.git`, `.github` or something inside.
unfoldable pub names_protected : Text → Bool
unfolding codes_eq starts_with trim_end_marks trim_start_marks
names_protected part =
    let token = without_dot (slashes (trim_end_marks (trim_start_marks part))) in
    codes_eq token (codes ".git")
    || (starts_with (codes ".git/") token
        || (codes_eq token (codes ".github") || starts_with (codes ".github/") token))

abbrev mutating_words : List Text
mutating_words = map codes (
    "rm " ∷ "remove-item" ∷ "rmdir" ∷ "del " ∷ "unlink" ∷ "rmtree" ∷ "write_text" ∷ "writefile"
    ∷ "rename" ∷ "move" ∷ "checkout" ∷ "clean " ∷ [])

-- `command_targets_protected_repository_asset`.
unfoldable pub command_targets_protected_repository_asset : Text → Bool
unfolding contains names_protected between_blanks
command_targets_protected_repository_asset command =
    let normalized = slashes (map ascii_lower command) in
    (contains (codes ".git") normalized || contains (codes ".github") normalized)
    && (any (λ needle. contains needle normalized) mutating_words
        || any names_protected (between_blanks command))
