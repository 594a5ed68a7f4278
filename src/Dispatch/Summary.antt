-- ===== src/Dispatch/Summary.antt =====
-- `safe_operation_summary` of src-tauri/src/tools/dispatch.rs: what the desktop shows of a command.
use gpt_tools_mcp.Prelude.{
  ℕ, ◌≤◌, ◌≡◌, ◌≢◌, refl, sym, ap, ◌∙◌, subst, zero, suc, Bool, true, false, ◌⊎◌, inl, inr, none,
  Bool-cases, Option-cases, ◌&&◌, ◌||◌, ◌==◌, leb, List, [], ◌∷◌, ◌++◌, Option, some, All, length,
  take, retain, length-take, arith, append_assoc,
}
use gpt_tools_mcp.Prelude.Text.{codes}
use gpt_tools_mcp.Policy.{Text}
use gpt_tools_mcp.Policy.Words.{base_name, is_slash, after_last_slash}

abbrev pub is_label_char : ℕ → Bool
is_label_char c =
    (leb b'0' c && leb c b'9')
    || ((leb b'A' c && leb c b'Z')
        || ((leb b'a' c && leb c b'z') || (c == b'.' || (c == b'_' || c == b'-'))))

-- The name of the program without its directories, its first 48 characters that may be shown.
unfoldable pub program_label : Text → Text
unfolding base_name
program_label executable = take 48 (retain is_label_char (base_name executable))

abbrev or_program : Text → Text
or_program [] = codes "program"
or_program label = label

-- The summary of a command that was split into words.
unfoldable pub summary_of_words : (ℕ → Text) → Option (List Text) → Text
unfolding program_label
summary_of_words decimal (some (executable ∷ args)) =
    codes "exec_command: "
    ++ or_program (program_label executable)
    ++ codes " (+"
    ++ decimal (length args)
    ++ codes " args)"
summary_of_words decimal _ = codes "exec_command"

-- A letter, a digit, a dot, an underscore or a dash.
abbrev pub IsPlain : ℕ → Type 0
IsPlain c =
    ((b'0' ≤ c) × (c ≤ b'9'))
    ⊎ (((b'A' ≤ c) × (c ≤ b'Z'))
        ⊎ (((b'a' ≤ c) × (c ≤ b'z')) ⊎ ((c ≡ b'.') ⊎ ((c ≡ b'_') ⊎ (c ≡ b'-')))))

-- The first text is what is left of the second without some of its characters.
pub data IsPart : Text → Text → Type 0 where
  nothing : {s : Text} → IsPart [] s
  keeps : {c : ℕ} {s u : Text} → IsPart s u → IsPart (c ∷ s) (c ∷ u)
  skips : {c : ℕ} {s u : Text} → IsPart s u → IsPart s (c ∷ u)

abbrev pub IsNoSlash : ℕ → Type 0
IsNoSlash c = (c ≢ b'/') × (c ≢ b'\\')

-- The directory of a path: empty, or up to a slash.
abbrev pub IsDirectory : Text → Type 0
IsDirectory dir =
    (dir ≡ []) ⊎ ((above : Text) × (c : ℕ) × (dir ≡ above ++ c ∷ []) × ((c ≡ b'/') ⊎ (c ≡ b'\\')))

-- What the summary of a command shows: a part of the name of its program, which is the last
-- component of its path, or the word `program`; and the number of the arguments.
abbrev pub Shows : Text → Text → Text → Type 0
Shows executable summary number =
    (dir : Text) × (base : Text) × (shown : Text) × (executable ≡ dir ++ base)
    × IsDirectory dir
    × All IsNoSlash base
    × ((shown ≡ codes "program") ⊎ IsPart shown base)
    × All IsPlain shown
    × (length shown ≤ 48)
    × (summary ≡ codes "exec_command: " ++ shown ++ codes " (+" ++ number ++ codes " args)")

is_label_char-IsPlain : (c : ℕ) → is_label_char c ≡ true → IsPlain c
is_label_char-IsPlain c h = ground (arith, h)

take-All : (n : ℕ) (s : Text) → All IsPlain s → All IsPlain (take n s)
take-All zero s h = tt
take-All (suc n) [] h = tt
take-All (suc n) (c ∷ s) (p, h) = (p, take-All n s h)

retain-All : (s : Text) → All IsPlain (retain is_label_char s)
retain-All [] = tt
retain-All (c ∷ s) = elim (Bool-cases (is_label_char c)) [
  | inl y ↦ rw y (is_label_char-IsPlain c y, retain-All s)
  | inr n ↦ rw n (retain-All s)
]

retain-IsPart : (s : Text) → IsPart (retain is_label_char s) s
retain-IsPart [] = nothing
retain-IsPart (c ∷ s) = elim (Bool-cases (is_label_char c)) [
  | inl y ↦ rw y (keeps (retain-IsPart s))
  | inr n ↦ rw n (skips (retain-IsPart s))
]

take-IsPart : {s u : Text} → (n : ℕ) → IsPart s u → IsPart (take n s) u
take-IsPart zero h = nothing
take-IsPart (suc n) nothing = nothing
take-IsPart (suc n) (keeps h) = keeps (take-IsPart n h)
take-IsPart (suc n) (skips h) = skips (take-IsPart (suc n) h)

no_slash : (c : ℕ) → is_slash c ≡ false → IsNoSlash c
no_slash c h = (λ e. ground (arith, h, e), λ e. ground (arith, h, e))

after_none : (s : Text) → after_last_slash s ≡ none → All IsNoSlash s
unfolding after_last_slash
after_none [] h = tt
after_none (c ∷ s) h = elim (Option-cases (after_last_slash s)) [
  | inl n ↦ (no_slash c (ground (arith, h, n)), after_none s n)
  | inr (r, n) ↦ absurd (ground (arith, h, n))
]

-- What stands before and after the last slash.
abbrev IsSplit : Text → Text → Type 0
IsSplit s base =
    (above : Text) × (c : ℕ) × (s ≡ above ++ c ∷ base)
    × ((c ≡ b'/') ⊎ (c ≡ b'\\'))
    × All IsNoSlash base

after_some : (s base : Text) → after_last_slash s ≡ some base → IsSplit s base
unfolding after_last_slash
after_some [] base h = absurd (cc)
after_some (c ∷ s) base h = elim (Option-cases (after_last_slash s)) [
  | inl n ↦
      let same : s ≡ base = ground (arith, h, n) in
      (
        [],
        c,
        ap (λ x. c ∷ x) same,
        ground (arith, h, n),
        subst (All IsNoSlash) same (after_none s n),
      )
  | inr (r, n) ↦
      let same : r ≡ base = ground (arith, h, n) in
      let (above, d, split, slash, rest) = after_some s r n in
      subst (IsSplit (c ∷ s)) same (c ∷ above, d, ap (λ x. c ∷ x) split, slash, rest)
]

base_name-lem :
    (s : Text)
    → (dir : Text) × (s ≡ dir ++ base_name s) × IsDirectory dir × All IsNoSlash (base_name s)
unfolding base_name
base_name-lem s = elim (Option-cases (after_last_slash s)) [
  | inl n ↦ rw n ([], refl, inl refl, after_none s n)
  | inr (base, n) ↦
      let (above, c, split, slash, rest) = after_some s base n in
      rw n (
        above ++ c ∷ [],
        split ∙ sym (append_assoc above (c ∷ []) base),
        inr (above, c, refl, slash),
        rest,
      )
]

or_program-safe :
    (label base : Text)
    → All IsPlain label
    → length label ≤ 48
    → IsPart label base
    → ((or_program label ≡ codes "program") ⊎ IsPart (or_program label) base)
      × All IsPlain (or_program label)
      × (length (or_program label) ≤ 48)
or_program-safe [] base h n k = (inl refl, ground arith, omega arith)
or_program-safe (c ∷ s) base h n k = (inr k, h, n)

-- Whatever a command holds, its summary shows beside the number of its arguments only a part of the
-- last component of the path of its program, or the word `program`: at most 48 characters, all of
-- them letters, digits, dots, underscores and dashes.
pub summary_of_words-safe :
    (decimal : ℕ → Text) (executable : Text) (args : List Text)
    → Shows executable (summary_of_words decimal (some (executable ∷ args))) (decimal (length args))
unfolding summary_of_words program_label
summary_of_words-safe decimal executable args =
    let base = base_name executable in
    let safe = retain is_label_char base in
    let short : length (take 48 safe) ≤ 48 = omega (arith, length-take {0} 48 safe) in
    let (dir, split, directory, last) = base_name-lem executable in
    let (chosen, all, bound) =
      or_program-safe (take 48 safe) base (take-All 48 safe (retain-All base)) short
        (take-IsPart 48 (retain-IsPart base)) in
    (dir, base, or_program (take 48 safe), split, directory, last, chosen, all, bound, refl)
