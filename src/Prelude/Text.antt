-- ===== src/Prelude/Text.antt =====
-- Text as the source uses it: the standard library's `trim` and the code points of a string.
use Prim.Native.Nat.{ℕ, ◌+◌}
use Prim.Native.Char.{Char, code}
use Prim.Native.String.{String}
use mathlib.Core.Path.{◌≡◌}
use mathlib.Core.Logic.{◌↔◌}
use mathlib.Core.Bool.{Bool, true, false, ◌&&◌, ◌||◌}
use mathlib.Core.List.{List, [], ◌∷◌, map}
use mathlib.Core.Option.{Option, none, some}
use native.Mathlib.Omega.{arith}
use gpt_tools_mcp.Prelude.Tests.{ltb, leb, ◌==◌, ==_iff, if◌then◌else◌}

-- The code points of a string. `String` has its own `[]` and `∷`.
abbrev pub codes : String → List ℕ
codes String.[] = []
codes (String.◌∷◌ c s) = code c ∷ codes s

-- `char::is_whitespace`: the property White_Space.
unfoldable pub is_whitespace : ℕ → Bool
is_whitespace c =
    (leb 9 c && leb c 13)
    || c == 0x20
    || c == 0x85
    || c == 0xA0
    || c == 0x1680
    || (leb 0x2000 c && leb c 0x200A)
    || c == 0x2028
    || c == 0x2029
    || c == 0x202F
    || c == 0x205F
    || c == 0x3000

unfoldable pub is_empty : String → Bool
is_empty String.[] = true
is_empty (String.◌∷◌ c s) = false

-- `str::trim_start`.
unfoldable pub trim_start : String → String
trim_start String.[] = String.[]
trim_start (String.◌∷◌ c s) = if is_whitespace (code c) then trim_start s else String.◌∷◌ c s

-- One step of `str::trim_end`, from the trimmed rest.
unfoldable pub keep_unless_blank : Char → String → String
keep_unless_blank c String.[] = if is_whitespace (code c) then String.[] else String.◌∷◌ c String.[]
keep_unless_blank c (String.◌∷◌ d s) = String.◌∷◌ c (String.◌∷◌ d s)

-- `str::trim_end`.
unfoldable pub trim_end : String → String
trim_end String.[] = String.[]
trim_end (String.◌∷◌ c s) = keep_unless_blank c (trim_end s)

-- `str::trim`.
unfoldable pub trim : String → String
unfolding trim_start trim_end keep_unless_blank is_whitespace
trim s = trim_end (trim_start s)

-- Equality of texts given as code points.
unfoldable pub codes_eq : List ℕ → List ℕ → Bool
codes_eq [] [] = true
codes_eq [] (y ∷ ys) = false
codes_eq (x ∷ xs) [] = false
codes_eq (x ∷ xs) (y ∷ ys) = x == y && codes_eq xs ys

pub codes_eq_iff : (a b : List ℕ) → (codes_eq a b ≡ true) ↔ (a ≡ b)
unfolding codes_eq
codes_eq_iff [] [] = ground arith
codes_eq_iff [] (y ∷ b) = ground arith
codes_eq_iff (x ∷ a) [] = ground arith
codes_eq_iff (x ∷ a) (y ∷ b) = ground (arith, codes_eq_iff a b, ==_iff x y)

-- The order of `String`: byte order of UTF-8, which is the order of code points.
unfoldable pub before : List ℕ → List ℕ → Bool
before xs [] = false
before [] (y ∷ ys) = true
before (x ∷ xs) (y ∷ ys) = ltb x y || (x == y && before xs ys)

-- One step of `str::split`: a character that is no separator joins the first part.
abbrev push_first : Char → List String → List String
push_first c [] = String.◌∷◌ c String.[] ∷ []
push_first c (part ∷ parts) = String.◌∷◌ c part ∷ parts

-- `str::split` at a character.
unfoldable pub split : ℕ → String → List String
split sep String.[] = String.[] ∷ []
split sep (String.◌∷◌ c s) =
    let rest = split sep s in if code c == sep then String.[] ∷ rest else push_first c rest

-- `replace('\\', "/")`, on code points.
abbrev pub slashes : List ℕ → List ℕ
slashes = map (λ c. if c == b'\\' then b'/' else c)

-- `to_ascii_lowercase`, on code points.
abbrev pub ascii_lower : ℕ → ℕ
ascii_lower c = if leb b'A' c && leb c b'Z' then c + 32 else c

unfoldable pub drop_if_slash : ℕ → List ℕ → List ℕ
drop_if_slash c [] = if c == b'/' then [] else c ∷ []
drop_if_slash c (d ∷ rest) = c ∷ d ∷ rest

-- `trim_end_matches('/')`.
unfoldable pub trim_end_slashes : List ℕ → List ℕ
unfolding drop_if_slash
trim_end_slashes [] = []
trim_end_slashes (c ∷ rest) = drop_if_slash c (trim_end_slashes rest)

-- `starts_with` of a text given as code points.
unfoldable pub starts_with : List ℕ → List ℕ → Bool
starts_with [] s = true
starts_with (c ∷ p) [] = false
starts_with (c ∷ p) (d ∷ s) = c == d && starts_with p s

abbrev drop_last_empty : List String → List String
drop_last_empty [] = []
drop_last_empty (part ∷ []) = if is_empty part then [] else part ∷ []
drop_last_empty (part ∷ next ∷ parts) = part ∷ drop_last_empty (next ∷ parts)

-- `lines().map(str::trim)`; a carriage return before the newline is trimmed with the rest.
unfoldable pub trimmed_lines : String → List String
unfolding split is_empty trim
trimmed_lines text = map trim (drop_last_empty (split 10 text))

-- `str::strip_prefix`.
unfoldable pub strip_prefix : String → String → Option String
strip_prefix String.[] s = some s
strip_prefix (String.◌∷◌ c p) String.[] = none
strip_prefix (String.◌∷◌ c p) (String.◌∷◌ d s) =
    let rest = strip_prefix p s in if code c == code d then rest else none

-- `eq_ignore_ascii_case`.
unfoldable pub eq_ignore_ascii_case : String → String → Bool
unfolding codes_eq
eq_ignore_ascii_case a b = codes_eq (map ascii_lower (codes a)) (map ascii_lower (codes b))

-- `contains` of a text.
unfoldable pub contains : List ℕ → List ℕ → Bool
unfolding starts_with
contains p [] = starts_with p []
contains p (c ∷ s) = starts_with p (c ∷ s) || contains p s

-- `contains` of a character that passes a test.
abbrev pub contains_char : (ℕ → Bool) → List ℕ → Bool
contains_char test [] = false
contains_char test (c ∷ s) = test c || contains_char test s

-- The number of bytes of a character and of a text in UTF-8 (`str::len`).
abbrev utf8_width : ℕ → ℕ
utf8_width c = if ltb c 0x80 then 1 else if ltb c 0x800 then 2 else if ltb c 0x10000 then 3 else 4

unfoldable pub utf8_length : List ℕ → ℕ
utf8_length [] = 0
utf8_length (c ∷ s) = utf8_width c + utf8_length s

-- `str::strip_suffix` of a text given as code points.
unfoldable pub strip_suffix : List ℕ → List ℕ → Option (List ℕ)
unfolding codes_eq
strip_suffix suffix [] = if codes_eq suffix [] then some [] else none
strip_suffix suffix (c ∷ s) =
    let rest = strip_suffix suffix s in
    if codes_eq (c ∷ s) suffix then some [] else elim (rest) [ none ↦ none | some t ↦ some (c ∷ t) ]
