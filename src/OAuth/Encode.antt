-- ===== src/OAuth/Encode.antt =====
-- src-tauri/src/auth/oauth_flow.rs: `urlencoding_encode` and the address that the browser is sent
-- to, as bytes.
use Prim.Native.String.{String}
use gpt_tools_mcp.Prelude.{
  ℕ, ◌+◌, ◌-◌, ◌*◌, ◌/◌, ◌%◌, ◌<◌, ◌≡◌, refl, ap, inl, inr, Bool-cases, true, false, ◌||◌, List, [],
  ◌∷◌, ◌++◌, All, any, arith, ltb, ◌==◌, if◌then◌else◌,
}
use gpt_tools_mcp.Prelude.Text.{is_empty}
use gpt_tools_mcp.OAuth.Compare.{as_bytes}
use gpt_tools_mcp.OAuth.Token.{is_unreserved}

-- A digit of `{:02X}`.
abbrev pub hex_digit : ℕ → ℕ
hex_digit d = if ltb d 10 then b'0' + d else b'A' + (d - 10)

-- `urlencoding_encode`.
unfoldable pub urlencoding_encode : List ℕ → List ℕ
urlencoding_encode [] = []
urlencoding_encode (b ∷ bytes) =
    let rest = urlencoding_encode bytes in
    if is_unreserved b then b ∷ rest else b'%' ∷ hex_digit (b / 16) ∷ hex_digit (b % 16) ∷ rest

-- The query of the redirect in `authorize_post_with_workspace_names`.
unfoldable pub query : String → String → List ℕ
unfolding urlencoding_encode as_bytes is_empty
query code state =
    as_bytes "code="
    ++ (urlencoding_encode (as_bytes code)
        ++ (if is_empty state
            then []
            else as_bytes "&state=" ++ urlencoding_encode (as_bytes state)))

-- The argument of `Redirect::to`.
unfoldable pub location : String → String → String → List ℕ
unfolding query as_bytes
location redirect_uri code state =
    as_bytes redirect_uri
    ++ ((if any (λ b. b == b'?') (as_bytes redirect_uri) then b'&' else b'?') ∷ query code state)

-- Reading a percent-encoded text: at the start of a unit, after `%`, and after its first digit.
pub data Mode : Type 0 where
  plain percent : Mode
  digit : ℕ → Mode

abbrev pub hex_value : ℕ → ℕ
hex_value c = if ltb c b'A' then c - b'0' else c - b'A' + 10

unfoldable pub decode_from : Mode → List ℕ → List ℕ
decode_from plain [] = []
decode_from plain (c ∷ rest) =
    if c == b'%' then decode_from percent rest else c ∷ decode_from plain rest
decode_from percent [] = []
decode_from percent (c ∷ rest) = decode_from (digit (hex_value c)) rest
decode_from (digit h) [] = []
decode_from (digit h) (c ∷ rest) = (h * 16 + hex_value c) ∷ decode_from plain rest

hex_value-digit : (d : ℕ) → d < 16 → hex_value (hex_digit d) ≡ d
hex_value-digit d h = ground arith

unreserved-ne-percent : (b : ℕ) → is_unreserved b ≡ true → (b == b'%') ≡ false
unreserved-ne-percent b h = ground arith

-- Decoding an encoded byte string gives it back.
pub decode_from-urlencoding_encode :
    (bytes : List ℕ)
    → All (λ b. b < 256) bytes
    → decode_from plain (urlencoding_encode bytes) ≡ bytes
unfolding decode_from urlencoding_encode
decode_from-urlencoding_encode [] h = refl
decode_from-urlencoding_encode (b ∷ bytes) h =
    let ih = decode_from-urlencoding_encode bytes h.1 in
    elim (Bool-cases (is_unreserved b)) [
      | inl e ↦ rw e (rw (unreserved-ne-percent b e) (ap (λ t. b ∷ t) ih))
      | inr e ↦
          rw (e, hex_value-digit (b / 16) (omega arith), hex_value-digit (b % 16) (omega arith), ih)
            (ap (λ x. x ∷ bytes) (omega arith))
    ]

-- Every byte of an encoded text is unreserved or `%`.
pub urlencoding_encode-IsUnreserved :
    (bytes : List ℕ)
    → All (λ b. b < 256) bytes
    → All (λ b. (is_unreserved b || b == b'%') ≡ true) (urlencoding_encode bytes)
unfolding urlencoding_encode
urlencoding_encode-IsUnreserved [] h = tt
urlencoding_encode-IsUnreserved (b ∷ bytes) h =
    ground (arith, urlencoding_encode-IsUnreserved bytes h.1)
