-- ===== src/Jwtauth.antt =====
-- jwtauth/logic.go: a login state that is kept in a signed token. The JWT library is outside. Times are
-- nanoseconds since 1970, the dates of a token are seconds.
pub mod Accepted
mod Tests
use acat_go_common.Common.{◌+◌, ◌*◌, ◌/◌, String, Option, none, some, ◌==◌, if◌then◌else◌}
use acat_go_common.Common.Int.{ℤ, pos, negsuc, ◌+ℤ◌, ◌*ℤ◌, leb_ℤ, wrap64}
use acat_go_common.Common.Text.{trim_space}
use acat_go_common.Apperr.{GoError, sentinel, not_found, plain, wrapped}
use acat_go_common.Exec.{Return, ok, err}
use acat_go_common.Satoken.Value.{str}
use acat_go_common.Satoken.Session.{Session, new_session}

-- `now` is the injected clock, if there is one.
pub record JwtConfig : Type 0 where
  pub secret : String
  pub issuer : String
  pub ttl_seconds : ℤ
  pub token_name : String
  pub now : Option ℤ

abbrev filled : String → String → String
filled s default = if s == "" then default else s

abbrev clock_or : Option ℤ → ℤ → Option ℤ
clock_or none wall = some wall
clock_or (some t) wall = some t

-- `Config.Normalize`, where the wall clock shows `wall`
unfoldable pub normalize : ℤ → JwtConfig → JwtConfig
normalize wall c = record {
  secret = c.secret;
  issuer = filled c.issuer "acat";
  ttl_seconds = if leb_ℤ c.ttl_seconds (pos 0) then pos 86400 else c.ttl_seconds;
  token_name = filled c.token_name "satoken";
  now = clock_or c.now wall;
}

-- `NewLogic`: `none` is its panic.
unfoldable pub new_logic : ℤ → JwtConfig → Option JwtConfig
unfolding normalize trim_space
new_logic wall c =
    let cfg = normalize wall c in if trim_space cfg.secret == "" then none else some cfg

-- `jwt.RegisteredClaims`
pub record Claims : Type 0 where
  pub subject : String
  pub issued_at : ℤ
  pub expires_at : ℤ
  pub issuer : String

-- What the library does: `SignedString` with HS256, and `ParseWithClaims` with a secret, HS256 as the
-- one valid method, an issuer, and the time of the wall clock.
pub record Jwt : Type 0 where
  pub signed_string : Claims → String → Return String
  pub parse_with_claims : String → String → ℤ → String → Return Claims

-- `jwt.NewNumericDate`: whole seconds
unfoldable pub numeric_date : ℤ → ℤ
numeric_date (pos n) = pos (n / 1_000_000_000)
numeric_date (negsuc n) = negsuc (n / 1_000_000_000)

abbrev now_of : JwtConfig → ℤ
now_of cfg = elim cfg.now [ none ↦ pos 0 | some t ↦ t ]

-- what `Login` signs for a login id
unfoldable pub claims_for : JwtConfig → String → Claims
unfolding numeric_date wrap64 ◌*ℤ◌ ◌+ℤ◌
claims_for cfg login_id = record {
  subject = login_id;
  issued_at = numeric_date (now_of cfg);
  expires_at = numeric_date (now_of cfg +ℤ wrap64 (cfg.ttl_seconds *ℤ pos 1_000_000_000));
  issuer = cfg.issuer;
}

abbrev pub missing : GoError
missing = sentinel not_found

module _ (jwt : Jwt) (cfg : JwtConfig) where
  unfoldable pub login : String → Return String
  unfolding claims_for trim_space
  login login_id =
      let id = trim_space login_id in
      if id == ""
      then err (plain "jwtauth: loginId 不能为空")
      else elim (jwt.signed_string (claims_for cfg id) cfg.secret) [
        | err e ↦ err (wrapped "jwtauth: 签发失败: " e "")
        | ok signed ↦ ok signed
      ]

  -- `Logout` does nothing.
  abbrev pub logout : String → Return (Unit {0})
  logout token = ok tt

  abbrev accepted : Return Claims → Return String
  accepted (err e) = err missing
  accepted (ok c) = if trim_space c.subject == "" then err missing else ok c.subject

  -- `CheckLogin`, where the wall clock shows `wall`: the injected clock is not asked.
  unfoldable pub check_login : ℤ → String → Return String
  unfolding trim_space
  check_login wall token_value =
      let token = trim_space token_value in
      if token == ""
      then err missing
      else accepted (jwt.parse_with_claims cfg.secret cfg.issuer wall token)

  -- `GetSession` with the id of a new session; `none` is the nil session.
  unfoldable pub get_session : String → String → Option Session
  unfolding new_session trim_space
  get_session new_session_id login_id =
      let id = trim_space login_id in
      if id == ""
      then none
      else some (record (new_session new_session_id) {
        type = "Account-Session";
        login_type = "login";
        login_id = str id;
        create_time = elim (now_of cfg) [
          | pos n ↦ pos (n / 1_000_000)
          | negsuc n ↦ negsuc (n / 1_000_000)
        ];
      })
