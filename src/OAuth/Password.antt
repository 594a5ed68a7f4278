-- ===== src/OAuth/Password.antt =====
-- No access token without the password (src-tauri/src/auth/oauth_flow.rs).
use Prim.Native.String.{String}
use gpt_tools_mcp.Prelude.{
  ℕ, ◌+◌, ◌≤◌, ◌≡◌, ◌⊎◌, refl, sym, ◌∙◌, subst, inl, inr, List, [], ◌∷◌, All, Option, some, arith,
  leb, str_eq, eq_iff, Bool-cases, retain,
}
use gpt_tools_mcp.Prelude.Assoc.{
  get, remove, Distinct, Distinct-insert, Distinct-retain, Distinct-remove, get-insert, get-remove,
  get-retain_back,
}
use gpt_tools_mcp.OAuth.Flow.{
  OAuthRuntime, PendingCode, Crypto, AuthorizeForm, TokenForm, access_token, new, issue_code,
  new_code, code_ttl_seconds,
}
use gpt_tools_mcp.OAuth.Token.{token_exchange}
use gpt_tools_mcp.OAuth.Codes.{Op, posts, exchanges, step, run, filled, token_exchange-IsRedeemable}
use gpt_tools_mcp.OAuth.Grant.{authorize_post-cases, token_exchange-cases}

abbrev pub In : Op → List Op → Type 0
In op [] = ⊥
In op (x ∷ ops) = (op ≡ x) ⊎ In op ops

-- The code was made by a form, among the steps that `occurs` tells, that carried the password.
abbrev IsAuthorized : (Op → Type 0) → String → String → PendingCode → Type 0
IsAuthorized occurs password code d =
    (f : AuthorizeForm) × (server_url : String) × (made : ℕ) × occurs (posts f server_url code made)
    × (f.password ≡ password)
    × (d ≡ new_code f server_url made)

record IsBacked (occurs : Op → Type 0) (password : String) (o : OAuthRuntime) : Type 0 where
  distinct : Distinct o.pending
  same_password : o.password ≡ password
  backed :
      (code : String) (d : PendingCode)
      → get code o.pending ≡ some d
      → IsAuthorized occurs password code d

module _ (occurs : Op → Type 0) (password : String) where
  issue_code-IsBacked :
      (o : OAuthRuntime) (f : AuthorizeForm) (server_url uuid : String) (now : ℕ)
      → occurs (posts f server_url uuid now)
      → f.password ≡ o.password
      → IsBacked occurs password o
      → IsBacked occurs password (issue_code o f server_url uuid now)
  unfolding issue_code
  issue_code-IsBacked o f server_url uuid now happened right b =
      let live = λ (d : PendingCode). leb now d.expires_at in
      let kept = retain (λ (x : String × PendingCode). live x.1) o.pending in
      let d₀ = new_code f server_url now in
      record {
        distinct = Distinct-insert uuid d₀ kept (Distinct-retain live o.pending b.distinct);
        same_password = b.same_password;
        backed = λ code d e. elim (Bool-cases (str_eq uuid code)) [
          | inl k ↦ (
            f,
            server_url,
            now,
            subst (λ x. occurs (posts f server_url x now)) ((eq_iff uuid code).0 k) happened,
            right ∙ b.same_password,
            ground (arith, get-insert uuid code d₀ kept),
          )
          | inr k ↦
              b.backed code d
                (get-retain_back live code d o.pending b.distinct
                  (ground (arith, get-insert uuid code d₀ kept))).0
        ];
      }

  removed-IsBacked :
      (o : OAuthRuntime) (used : String)
      → IsBacked occurs password o
      → IsBacked occurs password (record o { pending = remove used o.pending })
  removed-IsBacked o used b = record {
    distinct = Distinct-remove used o.pending b.distinct;
    same_password = b.same_password;
    backed = λ code d e. b.backed code d (ground (arith, get-remove used code o.pending));
  }

  step-IsBacked :
      (c : Crypto) (o : OAuthRuntime) (op : Op)
      → occurs op
      → IsBacked occurs password o
      → IsBacked occurs password (step c o op)
  unfolding step
  step-IsBacked c o (posts f server_url uuid now) happened b =
      elim (authorize_post-cases o f server_url uuid now) [
        | inl e ↦ subst (IsBacked occurs password) (sym e) b
        | inr (right, e) ↦
            subst (IsBacked occurs password) (sym e)
              (issue_code-IsBacked o f server_url uuid now happened right b)
      ]
  step-IsBacked c o (exchanges header f server_url now later) happened b =
      elim (token_exchange-cases c o header f server_url now later) [
        | inl e ↦ subst (IsBacked occurs password) (sym e) b
        | inr e ↦
            subst (IsBacked occurs password) (sym e) (removed-IsBacked o (filled c header f).code b)
      ]

  run-IsBacked :
      (c : Crypto) (o : OAuthRuntime) (ops : List Op)
      → All occurs ops
      → IsBacked occurs password o
      → IsBacked occurs password (run c o ops)
  unfolding run
  run-IsBacked c o [] happened b = b
  run-IsBacked c o (op ∷ ops) happened b =
      run-IsBacked c (step c o op) ops happened.1 (step-IsBacked c o op happened.0 b)

All-weaken : (P Q : Op → Type 0) (ops : List Op) → ((op : Op) → P op → Q op) → All P ops → All Q ops
All-weaken P Q [] h a = tt
All-weaken P Q (op ∷ ops) h a = (h op a.0, All-weaken P Q ops h a.1)

All-In : (ops : List Op) → All (λ op. In op ops) ops
All-In [] = tt
All-In (op ∷ ops) =
    (inl refl, All-weaken (λ x. In x ops) (λ x. In x (op ∷ ops)) ops (λ x h. inr h) (All-In ops))

-- From a new runtime, after any requests, an access token goes out only if one of them was an
-- authorization with the configured password that made this code, for the same client and redirect
-- URI, with the challenge of the verifier, at most 300 seconds before.
pub token_needs_password :
    (c : Crypto) (client_id : String) (secret : Option String) (password token_secret : String)
    (ops : List Op) (header : Option String) (form : TokenForm) (server_url : String)
    (now later : ℕ) (token : String) (n : ℕ)
    → (token_exchange c
        (run c (new client_id secret password token_secret) ops)
        header
        form
        server_url
        now
        later).1
      ≡ access_token token n
    → (f : AuthorizeForm) × (url : String) × (made : ℕ) × In
        (posts f url (filled c header form).code made)
        ops
      × (f.password ≡ password)
      × (f.client_id ≡ (filled c header form).client_id)
      × (f.redirect_uri ≡ (filled c header form).redirect_uri)
      × (f.code_challenge ≡ c.challenge_of (filled c header form).code_verifier)
      × (now ≤ made + code_ttl_seconds)
token_needs_password c client_id secret password token_secret ops header form server_url now later
      token n h =
    let start = new client_id secret password token_secret in
    let empty : IsBacked (λ op. In op ops) password start = record {
      distinct = tt;
      same_password = refl;
      backed = λ code d e. absurd (unfold get in cc);
    } in
    let (d, here, usable, after) =
      token_exchange-IsRedeemable c (run c start ops) header form server_url now later token n h in
    let b = run-IsBacked (λ op. In op ops) password c start ops (All-In ops) empty in
    let (f, url, made, found, right, made_d) = b.backed (filled c header form).code d here in
    (
      f,
      url,
      made,
      found,
      right,
      ground (arith, usable, made_d),
      ground (arith, usable, made_d),
      ground (arith, usable, made_d),
      ground (arith, usable, made_d),
    )
