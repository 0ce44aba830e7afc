-- ===== src/Middleware.antt =====
-- middleware/middleware.go and authn/authn.go: the HTTP middleware. A handler takes a request, what
-- has been written of the response, and the state behind the login provider; logging is left out.
pub mod Http
pub mod Errors
pub mod Gate
pub mod Guard
pub mod Cors
mod Tests
use acat_go_common.Common.{
  String, Bool, true, not, ◌&&◌, Option, none, some, List, [], ◌∷◌, ◌==◌, if◌then◌else◌, contains,
}
use acat_go_common.Common.Int.{pos}
use acat_go_common.Common.Text.{trim_space, trim_prefix}
use acat_go_common.Apperr.{
  GoError, Error, Business, is, not_found, as_error, is_business, http_status_of, code_of, text,
  internal, unauthorized, unavailable,
}
use acat_go_common.Result.{fail_code}
use acat_go_common.Exec.{Return, Exec, ok, err}
use acat_go_common.Satoken.Session.{Session}
use Http.{
  Context, Request, Payload, envelope, Writer, set_header, add_header, write_header, write_body,
  Served, returned, panicked, Handler, with_context,
}
use Prim.Native.String.{◌++◌}

abbrev pub token_header : String
token_header = "satoken"

abbrev pub header_trace_id : String
header_trace_id = "X-Trace-Id"

abbrev pub message_not_logged_in : String
message_not_logged_in = "未登录或登录已过期，请重新登录"

abbrev with_token : String → Context → Context
with_token token ctx = if token == "" then ctx else record ctx { token = token }

-- `WithSession`; `none` is a nil session.
unfoldable pub with_session : Context → Option Session → String → Context
with_session ctx none token = with_token token ctx
with_session ctx (some s) token = with_token token (record ctx { session = some s })

-- `WriteResult`
unfoldable pub write_result : Writer → Payload → Writer
unfolding set_header write_header write_body
write_result w payload =
    write_body payload
      (write_header (pos 200) (set_header "Content-Type" "application/json;charset=UTF-8" w))

abbrev message_of : GoError → Option Error → String
message_of e none = text e
message_of e (some a) = a.message

abbrev write_semantic : Writer → GoError → Writer
write_semantic w e =
    write_body (envelope (fail_code (code_of (some e)) (message_of e (as_error e)))) (
      write_header (http_status_of (some e))
        (set_header "Content-Type" "application/json;charset=UTF-8" w))

abbrev write_error_of : Writer → GoError → Option Business → Writer
write_error_of w e none = write_semantic w e
write_error_of w e (some b) = write_result w (envelope (fail_code b.code b.message))

-- `WriteError`
unfoldable pub write_error : Writer → GoError → Writer
unfolding write_result set_header write_header write_body is_business http_status_of code_of
    as_error text fail_code
write_error w e = write_error_of w e (is_business e)

-- `SessionProvider` of authn/authn.go
pub record SessionProvider (S : Type 0) : Type 0 where
  pub check_login : String → Exec S String
  pub get_session : String → Exec S (Option Session)
  pub token_name : String

pub record AuthConfig (S : Type 0) : Type 0 where
  pub provider : Option (SessionProvider S)
  pub logic : Option (SessionProvider S)
  pub cookie_name : String
  pub cookie_only : Bool
  pub context_hook : Option (Context → Request → Session → Exec S (Option Context))

-- a test of several, in turn
abbrev pub first_filled : String → String → String
first_filled s t = if s == "" then t else s

abbrev cookie_value : Request → String → String
cookie_value req name = elim (req.cookie name) [ none ↦ "" | some value ↦ value ]

-- `extractToken`
unfoldable pub extract_token : Request → String → Bool → String
unfolding trim_space trim_prefix
extract_token req cookie_name cookie_only =
    let from_cookie = if cookie_name == "" then "" else cookie_value req cookie_name in
    let bearer = trim_space (req.header "Authorization") in
    let from_header =
      first_filled (trim_space (req.header token_header))
        (if bearer == "" then "" else trim_prefix bearer "Bearer ") in
    first_filled from_cookie (if cookie_only then "" else from_header)

-- `Recover`
unfoldable pub recover : {S : Type 0} → Handler S → Handler S
unfolding write_error internal
recover next req w s = elim (next req w s) [
  | returned w' s' ↦ returned w' s'
  | panicked w' s' ↦ returned (write_error w' (internal none "服务内部错误")) s'
]

-- `Trace`; the first argument is what `NewTraceID` gives.
unfoldable pub trace : {S : Type 0} → String → Handler S → Handler S
unfolding set_header trim_space with_context
trace new_trace_id next req w s =
    let id = first_filled (trim_space (req.header header_trace_id)) new_trace_id in
    next (with_context req (record (req.context) { trace_id = id }))
      (if id == "" then w else set_header header_trace_id id w) s

-- `Chain`: the loop runs from the last middleware to the first.
unfoldable pub chain : {S : Type 0} → Handler S → List (Handler S → Handler S) → Handler S
chain handler [] = handler
chain handler (m ∷ ms) = m (chain handler ms)

module _ {S : Type 0} (cfg : AuthConfig S) (next : Handler S) (req : Request) where
  -- `WriteError` and `return`
  unfoldable pub rejected : Writer → GoError → S → Served S
  unfolding write_error
  rejected w e s = returned (write_error w e) s

  unfoldable pub admit : Context → Writer → S → Served S
  unfolding with_context
  admit ctx w s = next (with_context req ctx) w s

  unfoldable pub hooked : Context → Writer → Return (Option Context) × S → Served S
  unfolding admit rejected
  hooked ctx w (ok none, s) = admit ctx w s
  hooked ctx w (ok (some other), s) = admit other w s
  hooked ctx w (err e, s) = rejected w e s

  unfoldable pub run_hook :
      Option (Context → Request → Session → Exec S (Option Context))
      → Context
      → Session
      → Writer
      → S
      → Served S
  unfolding hooked admit
  run_hook none ctx session w s = admit ctx w s
  run_hook (some hook) ctx session w s = hooked ctx w (hook ctx req session s)

  unfoldable pub after_session : String → Writer → Return (Option Session) × S → Served S
  unfolding rejected run_hook with_session unavailable unauthorized text
  after_session token w (err e, s) = rejected w (unavailable ("读取会话失败: " ++ text e)) s
  after_session token w (ok none, s) = rejected w (unauthorized message_not_logged_in) s
  after_session token w (ok (some session), s) =
      run_hook cfg.context_hook (with_session req.context (some session) token) session w s

  unfoldable pub after_check : SessionProvider S → String → Writer → Return String × S → Served S
  unfolding rejected after_session unavailable unauthorized text is
  after_check p token w (err e, s) =
      if is e not_found
      then rejected w (unauthorized message_not_logged_in) s
      else rejected w (unavailable ("会话存储不可用: " ++ text e)) s
  after_check p token w (ok login_id, s) = after_session token w (p.get_session login_id s)

  unfoldable pub with_provider : Option (SessionProvider S) → Writer → S → Served S
  unfolding rejected after_check extract_token unauthorized internal
  with_provider none w s = rejected w (internal none "认证组件未初始化") s
  with_provider (some p) w s =
      let token = extract_token req (first_filled cfg.cookie_name p.token_name) cfg.cookie_only in
      if token == ""
      then rejected w (unauthorized message_not_logged_in) s
      else after_check p token w (p.check_login token s)

-- `AuthConfig.provider`
abbrev pub provider_of : {S : Type 0} → AuthConfig S → Option (SessionProvider S)
provider_of cfg = elim cfg.provider [ none ↦ cfg.logic | some p ↦ some p ]

-- `Auth`
unfoldable pub auth : {S : Type 0} → AuthConfig S → Handler S → Handler S
unfolding with_provider
auth cfg next req w s = with_provider cfg next req (provider_of cfg) w s

-- The headers that `CORS` sets in front of the handler: `allow_all` and the set of the origins.
abbrev allow_origin : Bool → Bool → List String → String → Writer → Writer
allow_origin allow_all credentials allowed origin w =
    if origin == ""
    then w
    else if allow_all && not credentials
    then set_header "Access-Control-Allow-Origin" "*" w
    else if contains allowed origin && not (origin == "*")
    then (let echoed =
          add_header "Vary" "Origin" (set_header "Access-Control-Allow-Origin" origin w) in
        if credentials then set_header "Access-Control-Allow-Credentials" "true" echoed else echoed)
    else w

unfoldable pub cors_headers : List String → Bool → String → Writer → Writer
unfolding set_header add_header
cors_headers allowed credentials origin w = set_header "Access-Control-Max-Age" "600" (
    set_header "Access-Control-Allow-Headers"
      ("Content-Type,Authorization," ++ (token_header ++ ("," ++ header_trace_id)))
      (set_header "Access-Control-Allow-Methods" "GET,POST,PUT,PATCH,DELETE,OPTIONS"
        (allow_origin (contains allowed "*") credentials allowed origin w)))

-- `CORS`
unfoldable pub cors : {S : Type 0} → List String → Bool → Handler S → Handler S
unfolding cors_headers write_header
cors allowed credentials next req w s =
    let w' = cors_headers allowed credentials (req.header "Origin") w in
    if req.method == "OPTIONS" then returned (write_header (pos 204) w') s else next req w' s
