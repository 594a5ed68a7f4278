-- ===== src/OAuth/Bearer.antt =====
-- src-tauri/src/auth/bearer.rs: `verify_bearer_header`. The header is what `HeaderMap::get` and
-- `to_str` give.
use gpt_tools_mcp.Prelude.{
  String, ◌≡◌, ◌↔◌, refl, ap, ◌∙◌, Option, none, some, arith, if◌then◌else◌,
}
use gpt_tools_mcp.Prelude.Text.{strip_prefix, trim}
use gpt_tools_mcp.OAuth.Compare.{constant_time_eq_str, constant_time_eq_str_iff}

abbrev pub verify_token : Option String → String → Option String
unfolding constant_time_eq_str trim
verify_token none expected = some "Invalid bearer token"
verify_token (some token) expected =
    if constant_time_eq_str (trim token) expected then none else some "Invalid bearer token"

-- `verify_bearer_header`: the text of the refusal, or none.
unfoldable pub verify_bearer_header : Option (Option String) → String → Option String
unfolding verify_token strip_prefix
verify_bearer_header none expected = some "Missing Authorization header"
verify_bearer_header (some none) expected = some "Invalid Authorization header"
verify_bearer_header (some (some header)) expected =
    verify_token (strip_prefix "Bearer " header) expected

some_injective : (a b : String) → some a ≡ some b → a ≡ b
some_injective a b h = cc

verify_token_iff :
    (token : Option String) (expected : String)
    → (verify_token token expected ≡ none) ↔ ((t : String) × (token ≡ some t) × (trim t ≡ expected))
unfolding verify_token
verify_token_iff none expected = (λ h. absurd (cc), λ (t, h, same). absurd (cc))
verify_token_iff (some token) expected = (
  λ h. (token, refl, ground (arith, h, constant_time_eq_str_iff (trim token) expected)),
  λ (t, h, same).
      let given : trim token ≡ expected = ap trim (some_injective token t h) ∙ same in
      ground (arith, (constant_time_eq_str_iff (trim token) expected).1 given),
)

-- A request passes exactly if its header is `Bearer ` with the expected token, but for blanks around
-- the token.
pub verify_bearer_header_iff :
    (header : Option (Option String)) (expected : String)
    → (verify_bearer_header header expected ≡ none) ↔ (
        (text : String) × (token : String) × (header ≡ some (some text))
        × (strip_prefix "Bearer " text ≡ some token)
        × (trim token ≡ expected))
unfolding verify_bearer_header
verify_bearer_header_iff none expected = (λ h. absurd (cc), λ x. absurd (let h = x.2 in cc))
verify_bearer_header_iff (some none) expected = (λ h. absurd (cc), λ x. absurd (let h = x.2 in cc))
verify_bearer_header_iff (some (some header)) expected = (
  λ h.
      let (token, found, same) = (verify_token_iff (strip_prefix "Bearer " header) expected).0 h in
      (header, token, refl, found, same),
  λ (text, token, h, found, same).
      let here : header ≡ text = cc in
      (verify_token_iff (strip_prefix "Bearer " header) expected).1
        (token, ap (strip_prefix "Bearer ") here ∙ found, same),
)
