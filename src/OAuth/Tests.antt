-- ===== src/OAuth/Tests.antt =====
-- One authorization and its exchange, and the theorems on it (src-tauri/src/auth).
use Prim.Native.String.{String}
use gpt_tools_mcp.Prelude.{
  ℕ, ◌+◌, ◌≤◌, ◌≡◌, ◌≢◌, ◌↔◌, refl, List, [], ◌∷◌, Option, none, some, arith, eq_iff,
}
use gpt_tools_mcp.Prelude.Assoc.{get, insert}
use gpt_tools_mcp.Prelude.Text.{trim, strip_prefix}
use gpt_tools_mcp.OAuth.Compare.{constant_time_eq_str}
use gpt_tools_mcp.OAuth.Bearer.{verify_bearer_header, verify_bearer_header_iff}
use gpt_tools_mcp.OAuth.Flow.{
  OAuthRuntime, Crypto, AuthorizeForm, TokenForm, access_token, new, authorize_post, trim_slashes,
  code_ttl_seconds, token_ttl_seconds,
}
use gpt_tools_mcp.OAuth.Token.{token_exchange, basic_auth_credentials}
use gpt_tools_mcp.OAuth.Codes.{Op, posts, step, run}
use gpt_tools_mcp.OAuth.Grant.{code_once}
use gpt_tools_mcp.OAuth.Password.{In, token_needs_password}

abbrev crypto : Crypto
crypto = record {
  challenge_of = λ verifier. verifier;
  sign = λ claims secret. some claims.iss;
  base64_text = λ encoded. some encoded;
}

abbrev verifier : String
verifier = "dBjftJeZ4CVP-mB92Kpru-AEJvkQlLgi3ThpmQ45N_Xyo"

abbrev authorization : AuthorizeForm
authorization = record {
  client_id = "chatgpt-client-test";
  redirect_uri = "https://chatgpt.com/connector/oauth/test";
  code_challenge = verifier;
  code_challenge_method = "S256";
  state = "state";
  password = "test-password";
}

abbrev start : OAuthRuntime
start = new "chatgpt-client-test" none "test-password" "token-signing-secret"

abbrev history : List Op
history = posts authorization "https://lb.example.com/" "c0de" 1000 ∷ []

abbrev authorized : OAuthRuntime
authorized = run crypto start history

abbrev form : TokenForm
form = record {
  grant_type = "authorization_code";
  code = "c0de";
  redirect_uri = "https://chatgpt.com/connector/oauth/test";
  code_verifier = verifier;
  client_id = "chatgpt-client-test";
  client_secret = "";
}

exchange_succeeds :
    (token_exchange crypto authorized none form "https://lb.example.com" 1010 1010).1
    ≡ access_token "https://lb.example.com" token_ttl_seconds
unfolding run step authorize_post token_exchange constant_time_eq_str get insert trim_slashes trim
exchange_succeeds = refl

again_differs : ◌≢◌ {A = String} "c1" "c0de"
again_differs = ground (arith, eq_iff "c1" "c0de")

code_once_example :
    (token_exchange crypto
      (run crypto
        (token_exchange crypto authorized none form "https://lb.example.com" 1010 1010).0
        (posts authorization "https://lb.example.com" "c1" 1020 ∷ []))
      none
      form
      "https://lb.example.com"
      1030
      1030).1
    ≢ access_token "https://lb.example.com" token_ttl_seconds
unfolding basic_auth_credentials
code_once_example =
    code_once crypto authorized none none form form "https://lb.example.com"
      "https://lb.example.com" 1010 1010 1030 1030
      (posts authorization "https://lb.example.com" "c1" 1020 ∷ []) "https://lb.example.com"
      "https://lb.example.com" token_ttl_seconds token_ttl_seconds exchange_succeeds refl
      (again_differs, tt)

token_needs_password_example :
    (f : AuthorizeForm) × (url : String) × (made : ℕ) × In (posts f url "c0de" made) history
    × (f.password ≡ "test-password")
    × (f.client_id ≡ "chatgpt-client-test")
    × (f.redirect_uri ≡ "https://chatgpt.com/connector/oauth/test")
    × (f.code_challenge ≡ verifier)
    × (1010 ≤ made + code_ttl_seconds)
unfolding basic_auth_credentials
token_needs_password_example =
    token_needs_password crypto "chatgpt-client-test" none "test-password" "token-signing-secret"
      history none form "https://lb.example.com" 1010 1010 "https://lb.example.com"
      token_ttl_seconds exchange_succeeds

passes_bearer : verify_bearer_header (some (some "Bearer s3cret ")) "s3cret" ≡ none
unfolding verify_bearer_header constant_time_eq_str trim
passes_bearer = refl

verify_bearer_header_iff_example :
    (verify_bearer_header (some (some "Bearer s3cret ")) "s3cret" ≡ none) ↔ (
      (text : String) × (token : String) × (◌≡◌ {A = Option (Option String)}
        (some (some "Bearer s3cret "))
        (some (some text)))
      × (strip_prefix "Bearer " text ≡ some token)
      × (trim token ≡ "s3cret"))
verify_bearer_header_iff_example = verify_bearer_header_iff (some (some "Bearer s3cret ")) "s3cret"
