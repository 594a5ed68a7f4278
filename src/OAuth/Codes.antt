-- ===== src/OAuth/Codes.antt =====
-- Histories of the OAuth runtime (src-tauri/src/auth/oauth_flow.rs), and the life of one code.
use Prim.Native.String.{String}
use gpt_tools_mcp.Prelude.{
  ℕ, ◌≤◌, ◌≡◌, inl, inr, List, [], ◌∷◌, Option, some, arith, str_eq, Bool-cases, Option-cases,
}
use gpt_tools_mcp.Prelude.Assoc.{get, remove}
use gpt_tools_mcp.OAuth.Compare.{constant_time_eq_str_iff}
use gpt_tools_mcp.OAuth.Flow.{
  OAuthRuntime, PendingCode, Crypto, AuthorizeForm, TokenForm, access_token, authorize_post,
}
use gpt_tools_mcp.OAuth.Token.{exchange, redeem, token_exchange, with_basic, basic_auth_credentials}

-- The two handlers that change the runtime.
pub data Op : Type 0 where
  posts : AuthorizeForm → String → String → ℕ → Op
  exchanges : Option String → TokenForm → String → ℕ → ℕ → Op

unfoldable pub step : Crypto → OAuthRuntime → Op → OAuthRuntime
step c o (posts f server_url uuid now) = (authorize_post o f server_url uuid now).0
step c o (exchanges header f server_url now later) =
    (token_exchange c o header f server_url now later).0

unfoldable pub run : Crypto → OAuthRuntime → List Op → OAuthRuntime
run c o [] = o
run c o (op ∷ ops) = run c (step c o op) ops

-- The form as `token_exchange` reads it.
abbrev pub filled : Crypto → Option String → TokenForm → TokenForm
filled c header f = with_basic f (basic_auth_credentials c header)

-- What a pending code must be for the exchange of a form to succeed.
pub record IsRedeemable (c : Crypto) (f : TokenForm) (now : ℕ) (d : PendingCode) : Type 0 where
  pub unexpired : now ≤ d.expires_at
  pub same_client : d.client_id ≡ f.client_id
  pub same_redirect : d.redirect_uri ≡ f.redirect_uri
  pub same_challenge : c.challenge_of f.code_verifier ≡ d.code_challenge

redeem-IsRedeemable :
    (c : Crypto) (o : OAuthRuntime) (f : TokenForm) (server_url : String) (now later : ℕ)
    (d : PendingCode) (token : String) (n : ℕ)
    → redeem c o f server_url now later d ≡ access_token token n
    → IsRedeemable c f now d
unfolding redeem
redeem-IsRedeemable c o f server_url now later d token n h = ground (
  arith,
  constant_time_eq_str_iff d.client_id f.client_id,
  constant_time_eq_str_iff d.redirect_uri f.redirect_uri,
  constant_time_eq_str_iff (c.challenge_of f.code_verifier) d.code_challenge,
)

exchange-IsRedeemable :
    (c : Crypto) (o : OAuthRuntime) (f : TokenForm) (server_url : String) (now later : ℕ)
    (token : String) (n : ℕ)
    → (exchange c o f server_url now later).1 ≡ access_token token n
    → (d : PendingCode) × (get f.code o.pending ≡ some d)
      × IsRedeemable c f now d
      × ((exchange c o f server_url now later).0 ≡ record o { pending = remove f.code o.pending })
unfolding exchange
exchange-IsRedeemable c o f server_url now later token n h =
    elim (Option-cases (get f.code o.pending)) [
      | inl e ↦ absurd (ground arith)
      | inr (d, e) ↦ (
        d,
        e,
        redeem-IsRedeemable c o f server_url now later d token n (ground arith),
        ground arith,
      )
    ]

-- An access token is issued only for a pending code that has not expired, to the client and the
-- redirect URI that the code was made for, against the verifier of its challenge; and the code is
-- taken out of the map.
pub token_exchange-IsRedeemable :
    (c : Crypto) (o : OAuthRuntime) (header : Option String) (f : TokenForm) (server_url : String)
    (now later : ℕ) (token : String) (n : ℕ)
    → (token_exchange c o header f server_url now later).1 ≡ access_token token n
    → (d : PendingCode) × (get (filled c header f).code o.pending ≡ some d)
      × IsRedeemable c (filled c header f) now d
      × ((token_exchange c o header f server_url now later).0
          ≡ record o { pending = remove (filled c header f).code o.pending })
unfolding token_exchange
token_exchange-IsRedeemable c o header f server_url now later token n h =
    elim (Bool-cases (str_eq f.grant_type "authorization_code")) [
      | inl e ↦ rw e (
          exchange-IsRedeemable c o (filled c header f) server_url now later token n (ground arith))
      | inr e ↦ absurd (ground arith)
    ]
