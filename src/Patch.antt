-- ===== src/Patch.antt =====
-- src-tauri/src/tools/patch.rs: the data of a patch, and the application of hunks to a text. A text
-- is the list of its code points.
pub mod Splice
pub mod Search
pub mod Whole
pub mod Parse
pub mod Strings
pub mod Print
pub mod RoundTrip
pub mod Sections
pub mod Document
pub mod Commit
pub mod Written
pub mod Atomic
pub mod Apply
mod Restored
pub mod Outcome
pub mod Refused
mod Tests
mod Twice
use gpt_tools_mcp.Prelude.{
  ℕ, zero, suc, ◌+◌, ◌-◌, Bool, true, false, not, ◌&&◌, ◌||◌, List, [], ◌∷◌, ◌++◌, Option, none,
  some, ltb, leb, ◌==◌, length, take, drop, if◌then◌else◌, map,
}
use gpt_tools_mcp.Prelude.Text.{codes_eq}

abbrev pub Text : Type 0
Text = List ℕ

pub data HunkLine : Type 0 where
  context add remove : Text → HunkLine

pub record Hunk : Type 0 where
  pub lines : List HunkLine

pub record FilePatch : Type 0 where
  pub path : Text
  pub hunks : List Hunk
  pub is_new_file : Bool
  pub is_deleted : Bool

-- `hunk_old` of `apply_hunks`: the lines that the hunk expects.
unfoldable pub hunk_old : List HunkLine → List Text
hunk_old [] = []
hunk_old (context s ∷ rest) = s ∷ hunk_old rest
hunk_old (add s ∷ rest) = hunk_old rest
hunk_old (remove s ∷ rest) = s ∷ hunk_old rest

-- `iter().zip(pattern).all(|(a, b)| a == b)`.
unfoldable pub all_same : List Text → List Text → Bool
unfolding codes_eq
all_same [] pattern = true
all_same (a ∷ lines) [] = true
all_same (a ∷ lines) (b ∷ pattern) = codes_eq a b && all_same lines pattern

-- The loop of `find_hunk_position` over `n` more positions from `i`.
unfoldable pub search_from : List Text → List Text → ℕ → ℕ → Option ℕ
search_from lines pattern i zero = none
search_from lines pattern i (suc n) =
    let rest = search_from lines pattern (i + 1) n in
    if all_same (take (length pattern) (drop i lines)) pattern then some i else rest

-- `find_hunk_position`.
unfoldable pub find_hunk_position : List Text → List Text → ℕ → Option ℕ
unfolding search_from all_same
find_hunk_position lines pattern start =
    if length pattern == 0
    then some start
    else if ltb (length lines) start || ltb (length lines - start) (length pattern)
    then none
    else search_from lines pattern start (length lines - length pattern + 1 - start)

-- `Vec::remove` at an index that is in range.
abbrev pub remove_at : ℕ → List Text → List Text
remove_at i [] = []
remove_at zero (x ∷ xs) = xs
remove_at (suc i) (x ∷ xs) = x ∷ remove_at i xs

abbrev cons_option : Text → Option (List Text) → Option (List Text)
cons_option x none = none
cons_option x (some xs) = some (x ∷ xs)

-- `Vec::insert`, which panics past the end: `none`.
abbrev pub insert_at : ℕ → Text → List Text → Option (List Text)
insert_at zero s xs = some (s ∷ xs)
insert_at (suc i) s [] = none
insert_at (suc i) s (x ∷ xs) = cons_option x (insert_at i s xs)

-- The inner loop of `apply_hunks`, from index `idx`; `none` is a panic.
unfoldable pub apply_lines : List HunkLine → ℕ → List Text → Option (List Text)
apply_lines [] idx lines = some lines
apply_lines (context s ∷ rest) idx lines = apply_lines rest (idx + 1) lines
apply_lines (remove s ∷ rest) idx lines =
    apply_lines rest idx (if ltb idx (length lines) then remove_at idx lines else lines)
apply_lines (add s ∷ rest) idx lines = elim (insert_at idx s lines) [
  | none ↦ none
  | some lines' ↦ apply_lines rest (idx + 1) lines'
]

-- The result of `apply_hunks`: the text, the refusal `PATCH_FAILED`, or a panic.
pub data Applied {ℓ} (A : Type ℓ) : Type ℓ where
  ok : A → Applied A
  mismatch panic : Applied A

unfoldable pub apply_hunk : Hunk → List Text → Applied (List Text)
unfolding find_hunk_position hunk_old apply_lines
apply_hunk hunk lines = elim (find_hunk_position lines (hunk_old hunk.lines) 0) [
  | none ↦ mismatch
  | some pos ↦ elim (apply_lines hunk.lines pos lines) [ none ↦ panic | some new ↦ ok new ]
]

-- The outer loop of `apply_hunks`.
unfoldable pub apply_each : List Hunk → List Text → Applied (List Text)
unfolding apply_hunk
apply_each [] lines = ok lines
apply_each (hunk ∷ hunks) lines = elim (apply_hunk hunk lines) [
  | ok new ↦ apply_each hunks new
  | mismatch ↦ mismatch
  | panic ↦ panic
]

-- `contains("\r\n")`.
unfoldable pub has_crlf : Text → Bool
has_crlf [] = false
has_crlf (c ∷ []) = false
has_crlf (c ∷ d ∷ rest) = (c == 13 && d == 10) || has_crlf (d ∷ rest)

-- `ends_with('\n')`.
unfoldable pub ends_with_newline : Text → Bool
ends_with_newline [] = false
ends_with_newline (c ∷ []) = c == 10
ends_with_newline (c ∷ d ∷ rest) = ends_with_newline (d ∷ rest)

unfoldable pub cons_first : ℕ → List Text → List Text
cons_first c [] = (c ∷ []) ∷ []
cons_first c (line ∷ lines) = (c ∷ line) ∷ lines

-- `split_terminator('\n')`.
unfoldable pub split_terminator : Text → List Text
unfolding cons_first
split_terminator [] = []
split_terminator (c ∷ rest) =
    if c == 10 then [] ∷ split_terminator rest else cons_first c (split_terminator rest)

unfoldable pub keep_unless_return : ℕ → Text → Text
keep_unless_return c [] = if c == 13 then [] else c ∷ []
keep_unless_return c (d ∷ rest) = c ∷ d ∷ rest

-- `trim_end_matches('\r')`.
unfoldable pub trim_returns : Text → Text
unfolding keep_unless_return
trim_returns [] = []
trim_returns (c ∷ rest) = keep_unless_return c (trim_returns rest)

-- `lines.join(line_ending)`.
unfoldable pub join : Text → List Text → Text
join sep [] = []
join sep (line ∷ []) = line
join sep (line ∷ next ∷ lines) = line ++ (sep ++ join sep (next ∷ lines))

abbrev pub is_nil : Text → Bool
is_nil [] = true
is_nil (c ∷ rest) = false

abbrev pub line_ending : Text → Text
line_ending original = if has_crlf original then 13 ∷ 10 ∷ [] else 10 ∷ []

-- The end of `apply_hunks`.
unfoldable pub finish : Text → List Text → Text
unfolding join ends_with_newline has_crlf
finish original lines =
    let output = join (line_ending original) lines in
    if not (is_nil output) && (ends_with_newline original || is_nil original)
    then output ++ line_ending original
    else output

-- `apply_hunks`.
unfoldable pub apply_hunks : Text → List Hunk → Applied Text
unfolding apply_each finish split_terminator trim_returns
apply_hunks original hunks =
    elim (apply_each hunks (map trim_returns (split_terminator original))) [
      | ok lines ↦ ok (finish original lines)
      | mismatch ↦ mismatch
      | panic ↦ panic
    ]
