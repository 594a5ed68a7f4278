-- ===== src/OAuth/Compare.antt =====
-- src-tauri/src/auth/bearer.rs: `constant_time_eq_str` and `constant_time_eq`, and the bytes of a
-- string.
use Prim.Native.Nat.{bit_xor, bit_or, bit_xor-bitwise, bit_or-bitwise, digits, differ, max}
use Prim.Native.Char.{code}
use Prim.Native.String.{String}
use text.Mathlib.TextEquality.{Char-path}
use gpt_tools_mcp.Prelude.{
  ℕ, zero, suc, ◌+◌, ◌/◌, ◌%◌, ◌≤◌, ◌≡◌, ◌↔◌, refl, sym, ap, ap₂, ◌∙◌, Bool, true, false, not, List,
  [], ◌∷◌, arith, ltb, ◌==◌, ==_iff, length, if◌then◌else◌, inl, inr, Bool-cases,
}

-- The UTF-8 bytes of a code point.
unfoldable pub encode_char : ℕ → List ℕ → List ℕ
encode_char c rest =
    if ltb c 0x80
    then c ∷ rest
    else if ltb c 0x800
    then (0xC0 + c / 64) ∷ (0x80 + c % 64) ∷ rest
    else if ltb c 0x10000
    then (0xE0 + c / 4096) ∷ (0x80 + c / 64 % 64) ∷ (0x80 + c % 64) ∷ rest
    else (0xF0 + c / 262144)
      ∷ (0x80 + c / 4096 % 64)
      ∷ (0x80 + c / 64 % 64)
      ∷ (0x80 + c % 64)
      ∷ rest

-- `str::as_bytes`.
unfoldable pub as_bytes : String → List ℕ
unfolding encode_char
as_bytes String.[] = []
as_bytes (String.◌∷◌ c s) = encode_char (code c) (as_bytes s)

-- The `zip` and `fold` of `constant_time_eq`.
unfoldable pub fold_differences : ℕ → List ℕ → List ℕ → ℕ
fold_differences acc [] right = acc
fold_differences acc (a ∷ left) [] = acc
fold_differences acc (a ∷ left) (b ∷ right) = fold_differences (bit_or acc (bit_xor a b)) left right

-- `constant_time_eq`.
unfoldable pub constant_time_eq : List ℕ → List ℕ → Bool
unfolding fold_differences
constant_time_eq left right =
    if not (length left == length right) then false else fold_differences 0 left right == 0

-- `constant_time_eq_str`.
unfoldable pub constant_time_eq_str : String → String → Bool
unfolding constant_time_eq as_bytes
constant_time_eq_str left right = constant_time_eq (as_bytes left) (as_bytes right)

xor_digits-zero : (n a b : ℕ) → a ≤ n → digits (λ b. b) differ n a b ≡ 0 → a ≡ b
xor_digits-zero zero zero b h e = omega arith
xor_digits-zero zero (suc a) b h e = absurd (omega arith)
xor_digits-zero (suc n) zero b h e = omega arith
xor_digits-zero (suc n) (suc a) b h e =
    let ih = xor_digits-zero n (suc a / 2) (b / 2) (omega arith) in ground (arith, ih (omega arith))

or_digits-zero : (n a b : ℕ) → a ≤ n → digits (λ b. b) max n a b ≡ 0 → (a ≡ 0) × (b ≡ 0)
or_digits-zero zero zero b h e = (refl, e)
or_digits-zero zero (suc a) b h e = absurd (omega arith)
or_digits-zero (suc n) zero b h e = (refl, e)
or_digits-zero (suc n) (suc a) b h e =
    let ih = or_digits-zero n (suc a / 2) (b / 2) (omega arith) (omega arith) in
    absurd (omega (arith, ih))

differ_self : (a : ℕ) → differ a a ≡ 0
differ_self zero = refl
differ_self (suc a) = differ_self a

xor_digits_self : (n a : ℕ) → a ≤ n → digits (λ b. b) differ n a a ≡ 0
xor_digits_self zero zero h = refl
xor_digits_self zero (suc a) h = absurd (omega arith)
xor_digits_self (suc n) zero h = refl
xor_digits_self (suc n) (suc a) h =
    let ih = xor_digits_self n (suc a / 2) (omega arith) in
    omega (arith, ih, differ_self (suc a % 2))

pub bit_xor-zero_iff : (a b : ℕ) → (bit_xor a b ≡ 0) ↔ (a ≡ b)
bit_xor-zero_iff a b = (
  λ h. xor_digits-zero a a b (omega arith) (sym (bit_xor-bitwise a b) ∙ h),
  λ h. rw (← h) (bit_xor-bitwise a a ∙ xor_digits_self a a (omega arith)),
)

pub bit_or-zero_iff : (a b : ℕ) → (bit_or a b ≡ 0) ↔ ((a ≡ 0) × (b ≡ 0))
bit_or-zero_iff a b = (
  λ h. or_digits-zero a a b (omega arith) (sym (bit_or-bitwise a b) ∙ h),
  λ h. rw (h.0, h.1) refl,
)

fold_differences-zero :
    (acc : ℕ) (left right : List ℕ)
    → length left ≡ length right
    → (fold_differences acc left right ≡ 0) ↔ ((acc ≡ 0) × (left ≡ right))
unfolding fold_differences
fold_differences-zero acc [] [] h = ground arith
fold_differences-zero acc [] (b ∷ right) h = absurd (omega arith)
fold_differences-zero acc (a ∷ left) [] h = absurd (omega arith)
fold_differences-zero acc (a ∷ left) (b ∷ right) h = ground (
  arith,
  fold_differences-zero (bit_or acc (bit_xor a b)) left right (omega arith),
  bit_or-zero_iff acc (bit_xor a b),
  bit_xor-zero_iff a b,
)

pub constant_time_eq_iff :
    (left right : List ℕ) → (constant_time_eq left right ≡ true) ↔ (left ≡ right)
unfolding constant_time_eq
constant_time_eq_iff left right = elim (Bool-cases (length left == length right)) [
  | inl e ↦
      ground (arith, fold_differences-zero 0 left right ((==_iff (length left) (length right)).0 e))
  | inr e ↦ (λ h. absurd (ground arith), λ h. absurd (ground (arith, ap length h)))
]

encode_char-injective :
    (c d : ℕ) (s t : List ℕ) → encode_char c s ≡ encode_char d t → (c ≡ d) × (s ≡ t)
unfolding encode_char
encode_char-injective c d s t h = ground arith

encode_char-ne-nil : (c : ℕ) (s : List ℕ) → encode_char c s ≡ [] → ⊥
unfolding encode_char
encode_char-ne-nil c s h = ground arith

pub as_bytes-injective : (s t : String) → as_bytes s ≡ as_bytes t → s ≡ t
unfolding as_bytes
as_bytes-injective String.[] String.[] h = refl
as_bytes-injective String.[] (String.◌∷◌ d t) h =
    absurd (encode_char-ne-nil (code d) (as_bytes t) (sym h))
as_bytes-injective (String.◌∷◌ c s) String.[] h =
    absurd (encode_char-ne-nil (code c) (as_bytes s) h)
as_bytes-injective (String.◌∷◌ c s) (String.◌∷◌ d t) h =
    let (same, rest) = encode_char-injective (code c) (code d) (as_bytes s) (as_bytes t) h in
    ap₂ String.◌∷◌ (Char-path c d same) (as_bytes-injective s t rest)

-- The comparison of secrets, which looks at every byte, is equality of strings.
pub constant_time_eq_str_iff :
    (left right : String) → (constant_time_eq_str left right ≡ true) ↔ (left ≡ right)
unfolding constant_time_eq_str
constant_time_eq_str_iff left right = (
  λ h. as_bytes-injective left right ((constant_time_eq_iff (as_bytes left) (as_bytes right)).0 h),
  λ h. (constant_time_eq_iff (as_bytes left) (as_bytes right)).1 (ap as_bytes h),
)
