-- ===== src/Middleware/Gate.antt =====
-- `Auth` of middleware/middleware.go: which requests the handler behind it gets to see.
use acat_go_common.Common.{
  ◌≡◌, ◌≢◌, refl, ap, sym, ◌∙◌, String, Option, none, some, List, [], ◌∷◌, ◌++◌, ◌==◌, eq_iff,
  arith, Bool-cases, inl, inr,
}
use acat_go_common.Apperr.{is, not_found}
use acat_go_common.Exec.{Return, ok, err}
use acat_go_common.Satoken.Session.{Session}
use acat_go_common.Middleware.{
  SessionProvider, AuthConfig, provider_of, extract_token, with_session, admit, after_session,
  after_check, chain, with_provider, auth, first_filled,
}
use acat_go_common.Middleware.Http.{Request, Writer, Handler, with_context}

-- The context of the request has a session and a token.
pub record IsAuthenticated (req : Request) : Type 0 where
  pub signed_in : (session : Session) × (req.context.session ≡ some session)
  pub token_given : req.context.token ≢ ""

-- Two handlers do the same on requests that are authenticated.
abbrev pub Agree : {S : Type 0} → Handler S → Handler S → Type 0
Agree {S} f g = (req : Request) (w : Writer) (s : S) → IsAuthenticated req → f req w s ≡ g req w s

module _ {S : Type 0} (cfg : AuthConfig S) (no_hook : cfg.context_hook ≡ none) (f g : Handler S)
    (agree : Agree f g) (req : Request) where
  session_token :
      (session : Session) (token : String)
      → token ≢ ""
      → (with_session req.context (some session) token).token ≡ token
  unfolding with_session
  session_token session token n = ground (arith, eq_iff token "")

  session_there :
      (session : Session) (token : String)
      → (with_session req.context (some session) token).session ≡ some session
  unfolding with_session
  session_there session token = ground arith

  admits :
      (session : Session) (token : String) (w : Writer) (s : S)
      → token ≢ ""
      → admit cfg f req (with_session req.context (some session) token) w s
        ≡ admit cfg g req (with_session req.context (some session) token) w s
  unfolding admit
  admits session token w s n =
      agree (with_context req (with_session req.context (some session) token)) w s (
        unfold with_context in
        record {
          signed_in = (session, session_there session token);
          token_given = λ e. n (sym (session_token session token n) ∙ e);
        })

  agree_after_session :
      (token : String) (w : Writer) (r : Return (Option Session)) (s : S)
      → token ≢ ""
      → after_session cfg f req token w (r, s) ≡ after_session cfg g req token w (r, s)
  unfolding after_session
  agree_after_session token w (err e) s n = refl
  agree_after_session token w (ok none) s n = refl
  agree_after_session token w (ok (some session)) s n = rw no_hook (admits session token w s n)

  agree_after_check :
      (p : SessionProvider S) (token : String) (w : Writer) (r : Return String) (s : S)
      → token ≢ ""
      → after_check cfg f req p token w (r, s) ≡ after_check cfg g req p token w (r, s)
  unfolding after_check
  agree_after_check p token w (err e) s n = elim (Bool-cases (is e not_found)) [
    | inl a ↦ rw a refl
    | inr a ↦ rw a refl
  ]
  agree_after_check p token w (ok id) s n =
      let (r, s') = p.get_session id s in agree_after_session token w r s' n

  agree_with :
      (p : Option (SessionProvider S)) (w : Writer) (s : S)
      → with_provider cfg f req p w s ≡ with_provider cfg g req p w s
  unfolding with_provider
  agree_with none w s = refl
  agree_with (some p) w s =
      let token = extract_token req (first_filled cfg.cookie_name p.token_name) cfg.cookie_only in
      elim (Bool-cases (token == "")) [
        | inl missing ↦ rw missing refl
        | inr given ↦
            let (r, s') = p.check_login token s in
            rw given (agree_after_check p token w r s' (ground (arith, eq_iff token "", given)))
      ]

-- Without a context hook, `Auth` runs the handler behind it only on requests whose context has a
-- session and a token: two handlers that agree on those requests are not told apart, whatever the
-- request, the configuration and the login provider are.
pub auth_lets_through :
    {S : Type 0} (cfg : AuthConfig S) (f g : Handler S) (req : Request) (w : Writer) (s : S)
    → cfg.context_hook ≡ none
    → Agree f g
    → auth cfg f req w s ≡ auth cfg g req w s
unfolding auth
auth_lets_through cfg f g req w s no_hook agree =
    agree_with cfg no_hook f g agree req (provider_of cfg) w s

-- A chain of middlewares is the chain of its first part around the chain of its second part.
chain-append :
    {S : Type 0} (handler : Handler S) (ms ns : List (Handler S → Handler S))
    → chain handler (ms ++ ns) ≡ chain (chain handler ns) ms
unfolding chain
chain-append handler [] ns = refl
chain-append handler (m ∷ ms) ns = ap m (chain-append handler ms ns)
