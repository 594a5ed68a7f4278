-- ===== src/OAuth/Grant.antt =====
-- Authorization codes over whole histories (src-tauri/src/auth/oauth_flow.rs): one use each, and
-- none without the password.
use Prim.Native.String.{String}
use gpt_tools_mcp.Prelude.{
  ℕ, ◌≡◌, ◌≢◌, ◌⊎◌, ◌∙◌, inl, inr, not, List, [], ◌∷◌, All, Option, none, arith, leb, str_eq,
  eq_iff, Bool-cases, retain, ◌||◌, ap,
}
use gpt_tools_mcp.Prelude.Text.{is_empty}
use gpt_tools_mcp.Prelude.Assoc.{get, remove, get-insert, get-remove, get-retain-none}
use gpt_tools_mcp.OAuth.Compare.{constant_time_eq_str, constant_time_eq_str_iff}
use gpt_tools_mcp.OAuth.Flow.{
  OAuthRuntime, PendingCode, Crypto, AuthorizeForm, TokenForm, access_token, client_id_allowed,
  authorize_post, issue_code, new_code,
}
use gpt_tools_mcp.OAuth.Token.{exchange, token_exchange, secret_ok, valid_code_verifier}
use gpt_tools_mcp.OAuth.Codes.{Op, posts, exchanges, step, run, filled, token_exchange-IsRedeemable}

-- The pending codes after a step: as before, or fewer, or with the new one.
pub authorize_post-cases :
    (o : OAuthRuntime) (f : AuthorizeForm) (server_url uuid : String) (now : ℕ)
    → ((authorize_post o f server_url uuid now).0 ≡ o)
      ⊎ ((f.password ≡ o.password)
          × ((authorize_post o f server_url uuid now).0 ≡ issue_code o f server_url uuid now))
unfolding authorize_post
authorize_post-cases o f server_url uuid now = elim (Bool-cases (client_id_allowed o f.client_id)) [
  | inr e ↦ inl (ground arith)
  | inl e ↦
      elim (Bool-cases (not (str_eq f.code_challenge_method "S256") || is_empty f.code_challenge)) [
        | inl k ↦ inl (ground arith)
        | inr k ↦ elim (Bool-cases (constant_time_eq_str f.password o.password)) [
          | inl w ↦ inr ((constant_time_eq_str_iff f.password o.password).0 w, ground arith)
          | inr w ↦ inl (ground arith)
        ]
      ]
]

pub token_exchange-cases :
    (c : Crypto) (o : OAuthRuntime) (header : Option String) (f : TokenForm) (server_url : String)
    (now later : ℕ)
    → ((token_exchange c o header f server_url now later).0 ≡ o)
      ⊎ ((token_exchange c o header f server_url now later).0
          ≡ record o { pending = remove (filled c header f).code o.pending })
unfolding token_exchange exchange
token_exchange-cases c o header f server_url now later =
    let g = filled c header f in
    elim (Bool-cases (str_eq f.grant_type "authorization_code")) [
      | inr e ↦ inl (ground arith)
      | inl e ↦ elim (Bool-cases (client_id_allowed o g.client_id)) [
        | inr k ↦ inl (ground arith)
        | inl k ↦ elim (Bool-cases (secret_ok o.client_secret g.client_secret)) [
          | inr w ↦ inl (ground arith)
          | inl w ↦ elim (Bool-cases (is_empty g.code)) [
            | inl x ↦ inl (ground arith)
            | inr x ↦ elim (Bool-cases (valid_code_verifier g.code_verifier)) [
              | inr y ↦ inl (ground arith)
              | inl y ↦ inr (ground arith)
            ]
          ]
        ]
      ]
    ]

-- A later authorization does not draw the same code.
abbrev pub IsFresh : String → Op → Type 0
IsFresh code (posts f server_url uuid now) = uuid ≢ code
IsFresh code _ = Unit

step-gone :
    (c : Crypto) (o : OAuthRuntime) (op : Op) (code : String)
    → IsFresh code op
    → get code o.pending ≡ none
    → get code (step c o op).pending ≡ none
unfolding step
step-gone c o (posts f server_url uuid now) code fresh gone =
    elim (authorize_post-cases o f server_url uuid now) [
      | inl e ↦ ground (arith, gone)
      | inr (w, e) ↦
          let kept = retain (λ (x : String × PendingCode). leb now x.1.expires_at) o.pending in
          rw e (
            unfold issue_code in
            ground (
              arith,
              eq_iff uuid code,
              fresh,
              get-insert uuid code (new_code f server_url now) kept,
              get-retain-none (λ (d : PendingCode). leb now d.expires_at) code o.pending gone,
            ))
    ]
step-gone c o (exchanges header f server_url now later) code fresh gone =
    elim (token_exchange-cases c o header f server_url now later) [
      | inl e ↦ rw e gone
      | inr e ↦ rw e (ground (arith, get-remove (filled c header f).code code o.pending))
    ]

run-gone :
    (c : Crypto) (o : OAuthRuntime) (ops : List Op) (code : String)
    → All (IsFresh code) ops
    → get code o.pending ≡ none
    → get code (run c o ops).pending ≡ none
unfolding run
run-gone c o [] code fresh gone = gone
run-gone c o (op ∷ ops) code fresh gone =
    run-gone c (step c o op) ops code fresh.1 (step-gone c o op code fresh.0 gone)

-- An authorization code that has been exchanged for a token is never exchanged again, whatever
-- requests follow, as long as no later authorization draws the same code.
pub code_once :
    (c : Crypto) (o : OAuthRuntime) (header header' : Option String) (f f' : TokenForm)
    (server_url server_url' : String) (now later now' later' : ℕ) (ops : List Op)
    (token token' : String) (n n' : ℕ)
    → (token_exchange c o header f server_url now later).1 ≡ access_token token n
    → (filled c header' f').code ≡ (filled c header f).code
    → All (IsFresh (filled c header f).code) ops
    → (token_exchange c
        (run c (token_exchange c o header f server_url now later).0 ops)
        header'
        f'
        server_url'
        now'
        later').1
      ≢ access_token token' n'
code_once c o header header' f f' server_url server_url' now later now' later' ops token token' n n'
      h same fresh h' =
    let code = (filled c header f).code in
    let o₁ = (token_exchange c o header f server_url now later).0 in
    let (d, here, usable, after) =
      token_exchange-IsRedeemable c o header f server_url now later token n h in
    let gone : get code o₁.pending ≡ none =
      ap (λ (x : OAuthRuntime). get code x.pending) after
      ∙ ground (arith, get-remove code code o.pending, eq_iff code code) in
    let (d', here', usable', after') =
      token_exchange-IsRedeemable c (run c o₁ ops) header' f' server_url' now' later' token' n'
        h' in
    ground (arith, run-gone c o₁ ops code fresh gone, here', same)
