-- ===== src/Patch/Strings.antt =====
-- The functions of `str` that the parsers of src-tauri/src/tools/patch.rs call.
use gpt_tools_mcp.Prelude.{
  ℕ, Bool, true, false, ◌&&◌, ◌||◌, List, [], ◌∷◌, Option, none, some, ◌==◌, if◌then◌else◌,
}
use gpt_tools_mcp.Prelude.Text.{is_whitespace}
use gpt_tools_mcp.Patch.{Text, cons_first, is_nil}

abbrev pub starts_newline : Text → Bool
starts_newline [] = false
starts_newline (c ∷ rest) = c == 10

-- `str::lines`: the end of a line is `\n` or `\r\n`.
unfoldable pub lines : Text → List Text
unfolding cons_first
lines [] = []
lines (c ∷ rest) =
    let more = lines rest in
    if c == 10
    then [] ∷ more
    else if c == 13 && starts_newline rest
    then more
    else cons_first c more

unfoldable pub strip_prefix : Text → Text → Option Text
strip_prefix [] s = some s
strip_prefix (c ∷ p) [] = none
strip_prefix (c ∷ p) (d ∷ s) = if c == d then strip_prefix p s else none

abbrev pub is_some {ℓ} : {A : Type ℓ} → Option A → Bool
is_some none = false
is_some (some a) = true

abbrev pub starts_with : Text → Text → Bool
starts_with p s = is_some (strip_prefix p s)

-- `str::contains`.
unfoldable pub contains : Text → Text → Bool
unfolding strip_prefix
contains p [] = is_nil p
contains p (c ∷ s) = starts_with p (c ∷ s) || contains p s

-- `str::trim`, on code points.
unfoldable pub trim_left : Text → Text
trim_left [] = []
trim_left (c ∷ s) = if is_whitespace c then trim_left s else c ∷ s

unfoldable pub drop_if_blank : ℕ → Text → Text
drop_if_blank c [] = if is_whitespace c then [] else c ∷ []
drop_if_blank c (d ∷ s) = c ∷ d ∷ s

unfoldable pub trim_right : Text → Text
unfolding drop_if_blank
trim_right [] = []
trim_right (c ∷ s) = drop_if_blank c (trim_right s)

abbrev pub first_of {ℓ} : {A : Type ℓ} → Option A → Option A → Option A
first_of (some a) o = some a
first_of none o = o

abbrev pub or_text : Text → Option Text → Text
or_text t none = t
or_text t (some s) = s
