-- ===== src/Satoken/Keys.antt =====
-- satoken/consts.go and the key functions and configuration of satoken/logic.go.
pub mod Separation
mod Tests
use acat_go_common.Common.{String, Bool, ◌==◌, if◌then◌else◌}
use acat_go_common.Common.Int.{ℤ, pos, negsuc, eqb_ℤ}
use Prim.Native.String.{◌++◌}

abbrev pub default_timeout_seconds : ℤ
default_timeout_seconds = pos 2592000

-- -1: a value that never expires
abbrev pub never_expire : ℤ
never_expire = negsuc 0

-- -2: there is no value
abbrev pub not_value_expire : ℤ
not_value_expire = negsuc 1

-- `Config`; the clock is an argument of the operations that read it.
pub record Config : Type 0 where
  pub token_name : String
  pub login_type : String
  pub timeout : ℤ
  pub active_timeout : ℤ
  pub is_concurrent : Bool
  pub is_share : Bool
  pub token_style : String

abbrev or_default : String → String → String
or_default s default = if s == "" then default else s

unfoldable pub normalize : Config → Config
normalize c = record c {
  token_name = or_default c.token_name "satoken";
  login_type = or_default c.login_type "login";
  timeout = if eqb_ℤ c.timeout (pos 0) then default_timeout_seconds else c.timeout;
  token_style = or_default c.token_style "uuid";
}

-- `<tokenName>:<loginType>` and a tag, in front of the value
unfoldable pub splice : Config → String → String → String
splice c tag value = c.token_name ++ (":" ++ (c.login_type ++ (tag ++ value)))

unfoldable pub token_key : Config → String → String
unfolding splice
token_key c token = splice c ":token:" token

unfoldable pub session_key : Config → String → String
unfolding splice
session_key c login_id = splice c ":session:" login_id

unfoldable pub token_session_key : Config → String → String
unfolding splice
token_session_key c token = splice c ":token-session:" token

unfoldable pub last_active_key : Config → String → String
unfolding splice
last_active_key c token = splice c ":last-active:" token
