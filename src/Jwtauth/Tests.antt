-- ===== src/Jwtauth/Tests.antt =====
-- Signed tokens at concrete inputs.
use acat_go_common.Common.{◌≡◌, refl, false, some, ◌==◌, if◌then◌else◌, sym}
use mathlib.Core.Path.{subst}
use acat_go_common.Common.Int.{pos, ◌*ℤ◌, ltb_ℤ}
use acat_go_common.Common.Text.{trim_space}
use acat_go_common.Apperr.{plain}
use acat_go_common.Exec.{ok, err}
use acat_go_common.Jwtauth.{JwtConfig, Claims, Jwt, claims_for, missing, login, check_login}
use acat_go_common.Jwtauth.Accepted.{Verifies, login_checked}

abbrev cfg : JwtConfig
cfg = record {
  secret = "s3cret";
  issuer = "acat";
  ttl_seconds = pos 60;
  token_name = "satoken";
  now = some (pos 5_000_000_000);
}

abbrev issued : Claims
issued = record { subject = "7"; issued_at = pos 5; expires_at = pos 65; issuer = "acat" }

-- a library that signs one set of claims
abbrev jwt : Jwt
jwt = record {
  signed_string = λ c secret. ok "a.b.c";
  parse_with_claims = λ secret issuer wall token.
      if ltb_ℤ wall (issued.expires_at *ℤ pos 1_000_000_000)
      then ok issued
      else err (plain "token is expired");
}

seven_is_issued : claims_for cfg (trim_space " 7 ") ≡ issued
unfolding claims_for trim_space
seven_is_issued = refl

dot_is_trimmed : trim_space "a.b.c" ≡ "a.b.c"
unfolding trim_space
dot_is_trimmed = refl

issued-Verifies : Verifies jwt issued
issued-Verifies = record {
  valid = λ secret issuer token wall h same q. rw q;
  expired = λ secret issuer token wall h q. (plain "token is expired", rw q);
  spelled = λ secret token h.
      let spelled : "a.b.c" ≡ token = cc h in
      subst (λ t. (trim_space t ≡ t) × ((t == "") ≡ false)) spelled (dot_is_trimmed, refl);
}

login_runs : login jwt cfg " 7 " ≡ ok "a.b.c"
unfolding login
login_runs = refl

check_runs : check_login jwt cfg (pos 64_000_000_000) "a.b.c" ≡ ok "7"
unfolding check_login ◌*ℤ◌
check_runs = refl

login_checked_example : check_login jwt cfg (pos 6_000_000_000) "a.b.c" ≡ (
    if ltb_ℤ
      (pos 6_000_000_000)
      ((claims_for cfg (trim_space " 7 ")).expires_at *ℤ pos 1_000_000_000)
    then ok (trim_space " 7 ")
    else err missing)
login_checked_example =
    login_checked jwt cfg " 7 " (subst (Verifies jwt) (sym seven_is_issued) issued-Verifies) "a.b.c"
      (pos 6_000_000_000) login_runs
