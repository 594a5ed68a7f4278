-- ===== src/Policy/Quotes.antt =====
-- What the scanner of shell operators finds (src-tauri/src/tools/policy.rs).
use gpt_tools_mcp.Prelude.{
  ℕ, Bool, true, false, ◌&&◌, ◌||◌, ◌==◌, ◌≡◌, ◌↔◌, ◌⊎◌, refl, ap, ◌∙◌, Any, [], ◌∷◌, ◌++◌, inl,
  inr, Bool-cases, and-true, arith,
}
use gpt_tools_mcp.Prelude.Text.{contains_char}
use gpt_tools_mcp.Policy.{Text}
use gpt_tools_mcp.Policy.Quoting.{IsClosed, quote_after, closed-plain, quote_after-Leaves}
use gpt_tools_mcp.Policy.Scan.{
  Quote, plain, next_quote, is_plain, is_operator, opens_expansion, finds_operator,
  has_forbidden_shell_syntax,
}

-- The operators of the shell: ; & | > < and `, and a $ before ( or {.
abbrev pub OpensExpansion : Text → Type 0
OpensExpansion [] = ⊥
OpensExpansion (d ∷ rest) = (d ≡ b'(') ⊎ (d ≡ b'{')

abbrev pub IsOperator : ℕ → Text → Type 0
IsOperator c rest =
    (c ≡ b';')
    ⊎ ((c ≡ b'&')
        ⊎ ((c ≡ b'|')
            ⊎ ((c ≡ b'>') ⊎ ((c ≡ b'<') ⊎ ((c ≡ b'`') ⊎ ((c ≡ b'$') × OpensExpansion rest))))))

-- An operator of the shell stands in the text, neither quoted nor escaped.
pub record HasOperator (s : Text) : Type 0 where
  pub before : Text
  pub character : ℕ
  pub rest : Text
  pub place : s ≡ before ++ (character ∷ rest)
  pub unquoted : IsClosed before
  pub operator : IsOperator character rest

opens_expansion_iff : (rest : Text) → (opens_expansion rest ≡ true) ↔ OpensExpansion rest
opens_expansion_iff [] = (λ h. absurd (cc), λ h. absurd h)
opens_expansion_iff (d ∷ rest) = (λ h. ground (arith, h), λ h. ground (arith, h))

is_operator_iff : (c : ℕ) (rest : Text) → (is_operator c rest ≡ true) ↔ IsOperator c rest
unfolding is_operator
is_operator_iff c rest =
    let (expands, expanded) = opens_expansion_iff rest in
    (λ h. ground (arith, h, expands), λ h. ground (arith, h, expanded))

-- What the scanner finds from a state of quoting on.
record Found (q : Quote) (s : Text) : Type 0 where
  before : Text
  character : ℕ
  rest : Text
  place : s ≡ before ++ (character ∷ rest)
  unquoted : quote_after q before ≡ plain
  operator : is_operator character rest ≡ true

is_plain-plain : (q : Quote) → is_plain q ≡ true → q ≡ plain
is_plain-plain plain h = refl
is_plain-plain _ h = absurd (ground (arith, h))

or-false : (a b : Bool) → (a || b) ≡ true → a ≡ false → b ≡ true
or-false true b h n = absurd (cc)
or-false false b h n = h

finds_operator-Found : (q : Quote) (s : Text) → finds_operator q s ≡ true → Found q s
unfolding finds_operator
finds_operator-Found q [] h = absurd (cc)
finds_operator-Found q (c ∷ s) h = elim (Bool-cases (is_plain q && is_operator c s)) [
  | inl here ↦
      let both = and-true (is_plain q) (is_operator c s) here in
      record {
        before = [];
        character = c;
        rest = s;
        place = refl;
        unquoted = is_plain-plain q both.0;
        operator = both.1;
      }
  | inr n ↦
      let later =
        or-false (is_plain q && is_operator c s) (finds_operator (next_quote q c) s) h n in
      let found = finds_operator-Found (next_quote q c) s later in
      record {
        before = c ∷ found.before;
        character = found.character;
        rest = found.rest;
        place = ap (λ t. c ∷ t) found.place;
        unquoted = found.unquoted;
        operator = found.operator;
      }
]

finds_operator_here :
    (q : Quote) (before : Text) (c : ℕ) (rest : Text)
    → quote_after q before ≡ plain
    → is_operator c rest ≡ true
    → finds_operator q (before ++ (c ∷ rest)) ≡ true
unfolding finds_operator
finds_operator_here q [] c rest u o = rw (u, o) refl
finds_operator_here q (b ∷ before) c rest u o =
    ground (arith, finds_operator_here (next_quote q b) before c rest u o)

finds_operator_iff : (s : Text) → (finds_operator plain s ≡ true) ↔ HasOperator s
finds_operator_iff s = (
  λ h.
      let f = finds_operator-Found plain s h in
      record {
        before = f.before;
        character = f.character;
        rest = f.rest;
        place = f.place;
        unquoted = quote_after-Leaves plain f.before f.unquoted;
        operator = (is_operator_iff f.character f.rest).0 f.operator;
      },
  λ f.
      ap (finds_operator plain) f.place
      ∙ finds_operator_here plain f.before f.character f.rest (closed-plain f.unquoted)
          ((is_operator_iff f.character f.rest).1 f.operator),
)

or-true : (a b : Bool) → (a ≡ true) ⊎ (b ≡ true) → (a || b) ≡ true
or-true true b h = refl
or-true false b (inl h) = absurd (cc)
or-true false b (inr h) = h

line_break_iff :
    (s : Text)
    → (contains_char (λ c. c == 13 || c == 10) s ≡ true) ↔ Any (λ c. (c ≡ b'\r') ⊎ (c ≡ b'\n')) s
line_break_iff [] = (λ h. absurd (cc), λ h. absurd h)
line_break_iff (c ∷ s) =
    let (there, back) = line_break_iff s in
    (λ h. ground (arith, h, there), λ h. ground (arith, h, back))

-- A command has shell syntax exactly if it has a carriage return, a line feed, or an operator of the
-- shell, one of ; & | > < `, or a $ before ( or {, that is neither quoted nor escaped: what stands
-- before it is made of plain characters, of pairs of a backslash and any character, and of texts
-- between single or double quotes, where a backslash escapes only between double quotes.
pub has_forbidden_shell_syntax_iff :
    (command : Text)
    → (has_forbidden_shell_syntax command ≡ true)
      ↔ (Any (λ c. (c ≡ b'\r') ⊎ (c ≡ b'\n')) command ⊎ HasOperator command)
unfolding has_forbidden_shell_syntax
has_forbidden_shell_syntax_iff command =
    let breaks = contains_char (λ c. c == 13 || c == 10) command in
    let (breaks_there, breaks_back) = line_break_iff command in
    let (finds, found) = finds_operator_iff command in
    (
      λ h. elim (Bool-cases breaks) [
        | inl b ↦ inl (breaks_there b)
        | inr n ↦ inr (finds (or-false breaks (finds_operator plain command) h n))
      ],
      λ r.
          or-true breaks (finds_operator plain command)
            (elim r [ inl b ↦ inl (breaks_back b) | inr f ↦ inr (found f) ]),
    )
