-- ===== src/OAuth/Token.antt =====
-- src-tauri/src/auth/oauth_flow.rs: the exchange of an authorization code for a token, `token_exchange`,
-- with PKCE and the credentials of a Basic header.
use Prim.Native.Char.{Char, code}
use Prim.Native.String.{String, len}
use gpt_tools_mcp.Prelude.{
  ℕ, ◌+◌, Bool, true, not, ◌&&◌, ◌||◌, Option, none, some, ltb, leb, ◌==◌, all, str_eq,
  if◌then◌else◌,
}
use gpt_tools_mcp.Prelude.Text.{codes, trim, is_empty}
use gpt_tools_mcp.Prelude.Assoc.{get, remove}
use gpt_tools_mcp.OAuth.Compare.{constant_time_eq_str}
use gpt_tools_mcp.OAuth.Flow.{
  token_ttl_seconds, PendingCode, OAuthRuntime, Crypto, TokenForm, Response, token_error,
  access_token, client_id_allowed, trim_slashes,
}

-- `ch.is_ascii_alphanumeric() || matches!(ch, '-' | '.' | '_' | '~')`.
abbrev pub is_unreserved : ℕ → Bool
is_unreserved c =
    (leb b'a' c && leb c b'z')
    || ((leb b'A' c && leb c b'Z')
        || ((leb b'0' c && leb c b'9') || (c == b'-' || (c == b'.' || (c == b'_' || c == b'~')))))

-- `valid_code_verifier`; `len` counts bytes.
unfoldable pub valid_code_verifier : String → Bool
valid_code_verifier v = (leb 43 (len v) && leb (len v) 128) && all is_unreserved (codes v)

-- `verify_pkce`.
unfoldable pub verify_pkce : Crypto → String → String → Bool
verify_pkce c verifier challenge = constant_time_eq_str (c.challenge_of verifier) challenge

-- `create_access_token`.
unfoldable pub create_access_token : Crypto → String → String → ℕ → ℕ → Option String
create_access_token c server_url secret ttl now =
    c.sign
      (record { iss = server_url; aud = server_url; iat = now; exp = now + ttl; scope = "mcp" })
      secret

abbrev pub or_else : String → String → String
or_else a b = if is_empty a then b else a

-- The credentials of a Basic header fill in what the form leaves empty.
abbrev pub with_basic : TokenForm → Option (String × String) → TokenForm
with_basic f none = f
with_basic f (some (id, secret)) = record f {
  client_id = or_else f.client_id id;
  client_secret = or_else f.client_secret secret;
}

-- `client_secret.as_deref()` with the comparison under it.
abbrev pub secret_ok : Option String → String → Bool
secret_ok none given = true
secret_ok (some expected) given = constant_time_eq_str given expected

abbrev pub issued : Option String → Response
issued none = token_error "server_error" "Failed to issue access token"
issued (some token) = access_token token token_ttl_seconds

-- The checks of `token_exchange` on the code that it took out of the map.
unfoldable pub redeem : Crypto → OAuthRuntime → TokenForm → String → ℕ → ℕ → PendingCode → Response
unfolding verify_pkce create_access_token
redeem c o f server_url now later d =
    if ltb d.expires_at now
    then token_error "invalid_grant" "Authorization code expired"
    else if not (constant_time_eq_str d.client_id f.client_id)
    then token_error "invalid_grant" "client_id mismatch"
    else if not (constant_time_eq_str d.redirect_uri f.redirect_uri)
    then token_error "invalid_grant" "redirect_uri mismatch"
    else if not (verify_pkce c f.code_verifier d.code_challenge)
    then token_error "invalid_grant" "PKCE verification failed"
    else issued (
        create_access_token c
          (if is_empty (trim d.server_url)
            then trim_slashes server_url
            else trim_slashes d.server_url)
          o.token_secret token_ttl_seconds later)

abbrev pub redeem_found :
    Crypto → OAuthRuntime → TokenForm → String → ℕ → ℕ → Option PendingCode → Response
redeem_found c o f server_url now later none =
    token_error "invalid_grant" "Unknown or already-used authorization code"
redeem_found c o f server_url now later (some d) = redeem c o f server_url now later d

-- `token_exchange` on the form with the header's credentials filled in: the code is taken out of
-- the map before it is looked at.
unfoldable pub exchange :
    Crypto → OAuthRuntime → TokenForm → String → ℕ → ℕ → OAuthRuntime × Response
unfolding client_id_allowed valid_code_verifier redeem
exchange c o f server_url now later =
    if not (client_id_allowed o f.client_id)
    then (o, token_error "invalid_client" "Unknown client_id")
    else if not (secret_ok o.client_secret f.client_secret)
    then (o, token_error "invalid_client" "Invalid client_secret")
    else if is_empty f.code
    then (o, token_error "invalid_grant" "code is required")
    else if not (valid_code_verifier f.code_verifier)
    then (o, token_error "invalid_grant" "Invalid code_verifier")
    else (
      record o { pending = remove f.code o.pending },
      redeem_found c o f server_url now later (get f.code o.pending),
    )

-- What follows a prefix, `strip_prefix`.
unfoldable pub strip_prefix : String → String → Option String
strip_prefix String.[] s = some s
strip_prefix (String.◌∷◌ c p) String.[] = none
strip_prefix (String.◌∷◌ c p) (String.◌∷◌ d s) = if code c == code d then strip_prefix p s else none

abbrev cons_first : Char → Option (String × String) → Option (String × String)
cons_first c none = none
cons_first c (some (a, b)) = some (String.◌∷◌ c a, b)

-- `split_once(':')`.
unfoldable pub split_once_colon : String → Option (String × String)
split_once_colon String.[] = none
split_once_colon (String.◌∷◌ c s) =
    if code c == b':' then some (String.[], s) else cons_first c (split_once_colon s)

-- `basic_auth_credentials`, from the `Authorization` header if it is there and is visible ASCII.
unfoldable pub basic_auth_credentials : Crypto → Option String → Option (String × String)
unfolding strip_prefix split_once_colon
basic_auth_credentials c none = none
basic_auth_credentials c (some header) = elim (strip_prefix "Basic " header) [
  | none ↦ none
  | some encoded ↦ elim (c.base64_text encoded) [ none ↦ none | some text ↦ split_once_colon text ]
]

-- `token_exchange`.
unfoldable pub token_exchange :
    Crypto → OAuthRuntime → Option String → TokenForm → String → ℕ → ℕ → OAuthRuntime × Response
unfolding exchange basic_auth_credentials
token_exchange c o header f server_url now later =
    if not (str_eq f.grant_type "authorization_code")
    then (o, token_error "unsupported_grant_type" "Only authorization_code is supported")
    else exchange c o (with_basic f (basic_auth_credentials c header)) server_url now later
