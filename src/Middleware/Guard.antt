-- ===== src/Middleware/Guard.antt =====
-- `Auth` of middleware/middleware.go in front of satoken/logic.go.
use acat_go_common.Common.{
  ◌≡◌, ◌≢◌, refl, String, false, Option, some, [], ◌∷◌, ◌==◌, eq_iff, arith,
}
use acat_go_common.Common.Int.{ℤ, pos}
use acat_go_common.Apperr.{GoError, is, not_found, text, unavailable, unauthorized}
use Prim.Native.String.{◌++◌}
use acat_go_common.Result.{fail_code}
use acat_go_common.Exec.{Return, err}
use acat_go_common.Satoken.Store.Healthy.{IsHealthy}
use acat_go_common.Satoken.Logic.{Deps, check_login, get_session, logout, missing}
use acat_go_common.Satoken.Logic.Revocation.{logout_revokes}
use acat_go_common.Middleware.{
  SessionProvider, AuthConfig, provider_of, extract_token, first_filled, message_not_logged_in,
  write_error, rejected, after_check, with_provider, auth,
}
use acat_go_common.Middleware.Http.{Request, envelope, Writer, fresh_writer, returned, Handler}

-- `Logic` as a `SessionProvider`
abbrev pub logic_provider : {S : Type 0} → Deps S → SessionProvider S
logic_provider d = record {
  check_login = check_login d;
  get_session = get_session d;
  token_name = d.cfg.token_name;
}

-- the token that `Auth` takes from the request
abbrev pub token_of : {S : Type 0} → AuthConfig S → SessionProvider S → Request → String
token_of cfg p req = extract_token req (first_filled cfg.cookie_name p.token_name) cfg.cookie_only

abbrev not_logged_in : Writer
not_logged_in = write_error fresh_writer (unauthorized message_not_logged_in)

not_logged_in_answer :
    (not_logged_in.status ≡ some (pos 401))
    × (not_logged_in.body ≡ envelope (fail_code (pos 401) message_not_logged_in) ∷ [])
unfolding write_error unauthorized
not_logged_in_answer = (refl, refl)

refused_check :
    {S : Type 0} (cfg : AuthConfig S) (next : Handler S) (req : Request) (p : SessionProvider S)
    (token : String) (r : Return String) (s : S)
    → r ≡ err missing
    → after_check cfg next req p token fresh_writer (r, s) ≡ returned not_logged_in s
unfolding after_check rejected is
refused_check cfg next req p token r s h = rw h refl

filled : (token : String) → token ≢ "" → (token == "") ≡ false
filled token n = ground (arith, eq_iff token "")

answered :
    {S : Type 0} (cfg : AuthConfig S) (next : Handler S) (req : Request) (p : SessionProvider S)
    (s : S)
    → provider_of cfg ≡ some p
    → token_of cfg p req ≢ ""
    → (p.check_login (token_of cfg p req) s).0 ≡ err missing
    → auth cfg next req fresh_writer s
      ≡ returned not_logged_in (p.check_login (token_of cfg p req) s).1
unfolding auth with_provider
answered cfg next req p s provided given fails =
    let token = token_of cfg p req in
    let (r, s') = p.check_login token s in
    rw (provided, filled token given) (refused_check cfg next req p token r s' fails)

-- After a `Logout` of a token over a healthy store, whether it returned an error or not, `Auth`
-- answers a request that carries this token with status 401 and one failure envelope, and the
-- handler behind it is not run: the answer is the same for every handler.
pub logged_out_is_401 :
    {S : Type 0} (d : Deps S) {view : S → String → Option String} {Fits : ℤ → Type 0}
    → IsHealthy d.store view Fits
    → (cfg : AuthConfig S) (req : Request) (s : S) → provider_of cfg ≡ some (logic_provider d)
    → token_of cfg (logic_provider d) req ≢ ""
    → (w : Writer) × (s' : S) × (w.status ≡ some (pos 401))
      × (w.body ≡ envelope (fail_code (pos 401) message_not_logged_in) ∷ [])
      × ((next : Handler S)
          → auth cfg next req fresh_writer (logout d (token_of cfg (logic_provider d) req) s).1
            ≡ returned w s')
logged_out_is_401 d h cfg req s provided given =
    let token = token_of cfg (logic_provider d) req in
    let after = (logout d token s).1 in
    let answer = not_logged_in_answer in
    (
      not_logged_in,
      (check_login d token after).1,
      answer.0,
      answer.1,
      λ next.
          answered cfg next req (logic_provider d) after provided given
            (logout_revokes d h token s).3,
    )

abbrev out_of_reach : GoError → Writer
out_of_reach e = write_error fresh_writer (unavailable ("会话存储不可用: " ++ text e))

out_of_reach_status : (e : GoError) → (out_of_reach e).status ≡ some (pos 503)
unfolding write_error unavailable
out_of_reach_status e = refl

failed_check :
    {S : Type 0} (cfg : AuthConfig S) (next : Handler S) (req : Request) (p : SessionProvider S)
    (token : String) (r : Return String) (s : S) (e : GoError)
    → r ≡ err e
    → is e not_found ≡ false
    → after_check cfg next req p token fresh_writer (r, s) ≡ returned (out_of_reach e) s
unfolding after_check rejected
failed_check cfg next req p token r s e h out = rw (h, out) refl

outage :
    {S : Type 0} (cfg : AuthConfig S) (next : Handler S) (req : Request) (p : SessionProvider S)
    (s : S) (e : GoError)
    → provider_of cfg ≡ some p
    → token_of cfg p req ≢ ""
    → (p.check_login (token_of cfg p req) s).0 ≡ err e
    → is e not_found ≡ false
    → auth cfg next req fresh_writer s
      ≡ returned (out_of_reach e) (p.check_login (token_of cfg p req) s).1
unfolding auth with_provider
outage cfg next req p s e provided given fails out =
    let token = token_of cfg p req in
    let (r, s') = p.check_login token s in
    rw (provided, filled token given) (failed_check cfg next req p token r s' e fails out)

-- Where `CheckLogin` fails with anything but `ErrNotFound`, as it does when the store is out of
-- reach, `Auth` answers status 503 and not 401, and the handler behind it is not run: the answer is
-- the same for every handler.
pub outage_is_503 :
    {S : Type 0} (cfg : AuthConfig S) (req : Request) (p : SessionProvider S) (s : S) (e : GoError)
    → provider_of cfg ≡ some p
    → token_of cfg p req ≢ ""
    → (p.check_login (token_of cfg p req) s).0 ≡ err e
    → is e not_found ≡ false
    → (w : Writer) × (w.status ≡ some (pos 503))
      × ((next : Handler S)
          → auth cfg next req fresh_writer s ≡ returned w (p.check_login (token_of cfg p req) s).1)
outage_is_503 cfg req p s e provided given fails out = (
  out_of_reach e,
  out_of_reach_status e,
  λ next. outage cfg next req p s e provided given fails out,
)
