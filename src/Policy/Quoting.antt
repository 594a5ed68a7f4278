-- ===== src/Policy/Quoting.antt =====
-- The quoting of a command: after which texts nothing is quoted, and that the states of the scanner
-- agree with it (src-tauri/src/tools/policy.rs).
use gpt_tools_mcp.Prelude.{
  ℕ, false, ◌==◌, ◌≡◌, ◌≢◌, refl, sym, ap, ◌∙◌, subst, All, [], ◌∷◌, ◌++◌, inl, inr, Bool-cases,
  arith,
}
use gpt_tools_mcp.Policy.{Text}
use gpt_tools_mcp.Policy.Scan.{
  Quote, plain, plain_escaped, single, double, double_escaped, next_quote,
}

-- What stands between double quotes: characters, and pairs of a backslash and any character.
pub data IsQuoted : Text → Type 0 where
  nothing : IsQuoted []
  character : {c : ℕ} {s : Text} → c ≢ b'\\' → c ≢ b'"' → IsQuoted s → IsQuoted (c ∷ s)
  escaped : {c : ℕ} {s : Text} → IsQuoted s → IsQuoted (b'\\' ∷ c ∷ s)

-- A text after which nothing is quoted: characters that are no quote and no backslash, pairs of a
-- backslash and any character, and texts between single or double quotes.
pub data IsClosed : Text → Type 0 where
  empty : IsClosed []
  plainly : {c : ℕ} {s : Text} → c ≢ b'\\' → c ≢ b'\'' → c ≢ b'"' → IsClosed s → IsClosed (c ∷ s)
  backslash : {c : ℕ} {s : Text} → IsClosed s → IsClosed (b'\\' ∷ c ∷ s)
  in_single :
      (body s : Text)
      → All (λ c. c ≢ b'\'') body
      → IsClosed s
      → IsClosed (b'\'' ∷ (body ++ (b'\'' ∷ s)))
  in_double : (body s : Text) → IsQuoted body → IsClosed s → IsClosed (b'"' ∷ (body ++ (b'"' ∷ s)))

-- The state of quoting after a text.
abbrev pub quote_after : Quote → Text → Quote
quote_after q [] = q
quote_after q (c ∷ s) = quote_after (next_quote q c) s

single-closes :
    (body s : Text)
    → All (λ c. c ≢ b'\'') body
    → quote_after single (body ++ (b'\'' ∷ s)) ≡ quote_after plain s
single-closes [] s h = refl
single-closes (c ∷ body) s (n, h) = ground (arith, n, single-closes body s h)

double-closes :
    {body : Text}
    → (s : Text) → IsQuoted body
    → quote_after double (body ++ (b'"' ∷ s)) ≡ quote_after plain s
double-closes s nothing = refl
double-closes s (character n m h) = ground (arith, n, m, double-closes s h)
double-closes s (escaped h) = double-closes s h

pub closed-plain : {s : Text} → IsClosed s → quote_after plain s ≡ plain
closed-plain empty = refl
closed-plain (plainly n m k h) = ground (arith, n, m, k, closed-plain h)
closed-plain (backslash h) = closed-plain h
closed-plain (in_single body s h k) = single-closes body s h ∙ closed-plain k
closed-plain (in_double body s h k) = double-closes s h ∙ closed-plain k

-- What a text is that leaves a state of quoting for good.
abbrev pub Leaves : Quote → Text → Type 0
Leaves plain s = IsClosed s
Leaves plain_escaped s = (c : ℕ) × (u : Text) × (s ≡ c ∷ u) × IsClosed u
Leaves single s =
    (body : Text) × (u : Text) × (s ≡ body ++ (b'\'' ∷ u)) × All (λ c. c ≢ b'\'') body × IsClosed u
Leaves double s = (body : Text) × (u : Text) × (s ≡ body ++ (b'"' ∷ u)) × IsQuoted body × IsClosed u
Leaves double_escaped s =
    (c : ℕ) × (body : Text) × (u : Text) × (s ≡ c ∷ (body ++ (b'"' ∷ u)))
    × IsQuoted body
    × IsClosed u

-- A first character, by what it is to a scanner.
not-eq : (a b : ℕ) → (a == b) ≡ false → a ≢ b
not-eq a b h e = ground (arith, h, e)

plain-Leaves :
    (c : ℕ) (s : Text)
    → ((q : Quote) → quote_after q s ≡ plain → Leaves q s)
    → quote_after (next_quote plain c) s ≡ plain
    → IsClosed (c ∷ s)
plain-Leaves c s go h = elim (Bool-cases (c == b'\\')) [
  | inl a ↦
      let (d, u, same, k) = go plain_escaped (rw a at h) in
      let is : c ≡ b'\\' = ground (arith, a) in
      subst (λ x. IsClosed (x ∷ s)) (sym is)
        (subst (λ x. IsClosed (b'\\' ∷ x)) (sym same) (backslash k))
  | inr a ↦ elim (Bool-cases (c == b'\'')) [
    | inl b ↦
        let (body, u, same, all, k) = go single (rw (a, b) at h) in
        let is : c ≡ b'\'' = ground (arith, b) in
        subst (λ x. IsClosed (x ∷ s)) (sym is)
          (subst (λ x. IsClosed (b'\'' ∷ x)) (sym same) (in_single body u all k))
    | inr b ↦ elim (Bool-cases (c == b'"')) [
      | inl d ↦
          let (body, u, same, all, k) = go double (rw (a, b, d) at h) in
          let is : c ≡ b'"' = ground (arith, d) in
          subst (λ x. IsClosed (x ∷ s)) (sym is)
            (subst (λ x. IsClosed (b'"' ∷ x)) (sym same) (in_double body u all k))
      | inr d ↦
          plainly (not-eq c b'\\' a) (not-eq c b'\'' b) (not-eq c b'"' d)
            (go plain (rw (a, b, d) at h))
    ]
  ]
]

single-Leaves :
    (c : ℕ) (s : Text)
    → ((q : Quote) → quote_after q s ≡ plain → Leaves q s)
    → quote_after (next_quote single c) s ≡ plain
    → Leaves single (c ∷ s)
single-Leaves c s go h = elim (Bool-cases (c == b'\'')) [
  | inl a ↦
      let is : c ≡ b'\'' = ground (arith, a) in
      ([], s, ap (λ x. x ∷ s) is, tt, go plain (rw a at h))
  | inr a ↦
      let (body, u, same, all, k) = go single (rw a at h) in
      (c ∷ body, u, ap (λ x. c ∷ x) same, (not-eq c b'\'' a, all), k)
]

double-Leaves :
    (c : ℕ) (s : Text)
    → ((q : Quote) → quote_after q s ≡ plain → Leaves q s)
    → quote_after (next_quote double c) s ≡ plain
    → Leaves double (c ∷ s)
double-Leaves c s go h = elim (Bool-cases (c == b'\\')) [
  | inl a ↦
      let (d, body, u, same, all, k) = go double_escaped (rw a at h) in
      let is : c ≡ b'\\' = ground (arith, a) in
      (b'\\' ∷ d ∷ body, u, ap (λ x. x ∷ s) is ∙ ap (λ x. b'\\' ∷ x) same, escaped all, k)
  | inr a ↦ elim (Bool-cases (c == b'"')) [
    | inl b ↦
        let is : c ≡ b'"' = ground (arith, b) in
        ([], s, ap (λ x. x ∷ s) is, nothing, go plain (rw (a, b) at h))
    | inr b ↦
        let (body, u, same, all, k) = go double (rw (a, b) at h) in
        (c ∷ body, u, ap (λ x. c ∷ x) same, character (not-eq c b'\\' a) (not-eq c b'"' b) all, k)
  ]
]

pub quote_after-Leaves : (q : Quote) (s : Text) → quote_after q s ≡ plain → Leaves q s
quote_after-Leaves plain [] h = empty
quote_after-Leaves plain_escaped [] h = absurd (cc)
quote_after-Leaves single [] h = absurd (cc)
quote_after-Leaves double [] h = absurd (cc)
quote_after-Leaves double_escaped [] h = absurd (cc)
quote_after-Leaves plain (c ∷ s) h = plain-Leaves c s (λ q. quote_after-Leaves q s) h
quote_after-Leaves plain_escaped (c ∷ s) h = (c, s, refl, quote_after-Leaves plain s h)
quote_after-Leaves single (c ∷ s) h = single-Leaves c s (λ q. quote_after-Leaves q s) h
quote_after-Leaves double (c ∷ s) h = double-Leaves c s (λ q. quote_after-Leaves q s) h
quote_after-Leaves double_escaped (c ∷ s) h =
    let (body, u, same, all, k) = quote_after-Leaves double s h in
    (c, body, u, ap (λ x. c ∷ x) same, all, k)
