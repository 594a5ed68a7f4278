-- ===== src/OAuth/Flow.antt =====
-- src-tauri/src/auth/oauth_flow.rs: the pending authorization codes, `authorize_get`
-- and `authorize_post`; `token_exchange` is in Token. A response is its kind with the texts that the code puts
-- into it; the HTML of the login page is left out. A handler takes its readings of the clock
-- (seconds) and the fresh UUID. The lock is never poisoned: nothing panics while it is held.
use Prim.Native.Char.{Char, code}
use Prim.Native.String.{String}
use gpt_tools_mcp.Prelude.{
  ℕ, ◌+◌, ◌*◌, Bool, true, false, not, ◌||◌, List, [], Option, leb, ◌==◌, retain, str_eq,
  if◌then◌else◌,
}
use gpt_tools_mcp.Prelude.Text.{is_empty}
use gpt_tools_mcp.Prelude.Assoc.{insert}
use gpt_tools_mcp.OAuth.Compare.{constant_time_eq_str}

abbrev pub code_ttl_seconds : ℕ
code_ttl_seconds = 300

abbrev pub token_ttl_seconds : ℕ
token_ttl_seconds = 60 * 60 * 24 * 30

pub record PendingCode : Type 0 where
  pub code_challenge : String
  pub client_id : String
  pub redirect_uri : String
  pub state : String
  pub expires_at : ℕ
  pub server_url : String

pub record OAuthRuntime : Type 0 where
  pub client_id : String
  pub client_secret : Option String
  pub password : String
  pub token_secret : String
  pub pending : List (String × PendingCode)

pub record TokenClaims : Type 0 where
  pub iss : String
  pub aud : String
  pub iat : ℕ
  pub exp : ℕ
  pub scope : String

-- What the module takes from other crates: the unpadded URL-safe base64 of the SHA-256 of a text,
-- the signing of claims under a secret, which may fail, and the text that a standard base64 string
-- decodes to, if it does and is UTF-8.
pub record Crypto : Type 0 where
  pub challenge_of : String → String
  pub sign : TokenClaims → String → Option String
  pub base64_text : String → Option String

pub record AuthorizeParams : Type 0 where
  pub response_type : String
  pub client_id : String
  pub redirect_uri : String
  pub code_challenge : String
  pub code_challenge_method : String
  pub state : String

pub record AuthorizeForm : Type 0 where
  pub client_id : String
  pub redirect_uri : String
  pub code_challenge : String
  pub code_challenge_method : String
  pub state : String
  pub password : String

pub record TokenForm : Type 0 where
  pub grant_type : String
  pub code : String
  pub redirect_uri : String
  pub code_verifier : String
  pub client_id : String
  pub client_secret : String

pub data Response : Type 0 where
  bad_request : String → Response
  login_page : String → Response
  unauthorized_login_page : String → Response
  redirect : String → String → String → Response
  token_error : String → String → Response
  access_token : String → ℕ → Response

-- `OAuthRuntime::new`.
abbrev pub new : String → Option String → String → String → OAuthRuntime
new client_id client_secret password token_secret = record {
  client_id = client_id;
  client_secret = client_secret;
  password = password;
  token_secret = token_secret;
  pending = [];
}

-- `OAuthRuntime::client_id_allowed`.
unfoldable pub client_id_allowed : OAuthRuntime → String → Bool
unfolding is_empty
client_id_allowed o id =
    if is_empty id
    then false
    else if is_empty o.client_id
    then true
    else constant_time_eq_str id o.client_id

unfoldable pub keep_unless_slash : Char → String → String
keep_unless_slash c String.[] = if code c == b'/' then String.[] else String.◌∷◌ c String.[]
keep_unless_slash c (String.◌∷◌ d s) = String.◌∷◌ c (String.◌∷◌ d s)

-- `trim_end_matches('/')`.
unfoldable pub trim_slashes : String → String
unfolding keep_unless_slash
trim_slashes String.[] = String.[]
trim_slashes (String.◌∷◌ c s) = keep_unless_slash c (trim_slashes s)

-- `authorize_get_with_workspace_names`.
unfoldable pub authorize_get : OAuthRuntime → AuthorizeParams → Response
unfolding client_id_allowed
authorize_get o p =
    if not (str_eq p.response_type "code")
    then bad_request "response_type must be 'code'"
    else if not (client_id_allowed o p.client_id)
    then bad_request "Unknown client_id"
    else if not (str_eq p.code_challenge_method "S256") || is_empty p.code_challenge
    then bad_request "code_challenge_method must be S256 and code_challenge is required"
    else login_page ""

abbrev pub new_code : AuthorizeForm → String → ℕ → PendingCode
new_code f server_url now = record {
  code_challenge = f.code_challenge;
  client_id = f.client_id;
  redirect_uri = f.redirect_uri;
  state = f.state;
  expires_at = now + code_ttl_seconds;
  server_url = trim_slashes server_url;
}

-- The block that holds the lock in `authorize_post_with_workspace_names`.
unfoldable pub issue_code : OAuthRuntime → AuthorizeForm → String → String → ℕ → OAuthRuntime
issue_code o f server_url uuid now = record o {
  pending =
      insert uuid (new_code f server_url now) (retain (λ e. leb now e.1.expires_at) o.pending);
}

-- `authorize_post_with_workspace_names`; `uuid` has no dashes any more.
unfoldable pub authorize_post :
    OAuthRuntime → AuthorizeForm → String → String → ℕ → OAuthRuntime × Response
unfolding client_id_allowed issue_code
authorize_post o f server_url uuid now =
    if not (client_id_allowed o f.client_id)
    then (o, login_page "Invalid client")
    else if not (str_eq f.code_challenge_method "S256") || is_empty f.code_challenge
    then (o, login_page "Invalid PKCE parameters")
    else if not (constant_time_eq_str f.password o.password)
    then (o, unauthorized_login_page "Invalid password")
    else (issue_code o f server_url uuid now, redirect f.redirect_uri uuid f.state)
