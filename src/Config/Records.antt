-- ===== src/Config/Records.antt =====
-- config/config.go: the configuration's sections. A duration is a number of nanoseconds.
use acat_go_common.Common.{String, Bool}
use acat_go_common.Common.Int.{ℤ}

pub record ServerConfig : Type 0 where
  pub name : String
  pub port : ℤ
  pub read_timeout : ℤ
  pub write_timeout : ℤ
  pub idle_timeout : ℤ
  pub shutdown_timeout : ℤ

pub record DatabaseConfig : Type 0 where
  pub host : String
  pub port : ℤ
  pub database : String
  pub username : String
  pub password : String
  pub params : String
  pub max_open_conns : ℤ
  pub max_idle_conns : ℤ
  pub conn_max_lifetime : ℤ
  pub conn_max_idle_time : ℤ

pub record RedisConfig : Type 0 where
  pub addr : String
  pub password : String
  pub db : ℤ
  pub pool_size : ℤ
  pub dial_timeout : ℤ

pub record SaTokenConfig : Type 0 where
  pub token_name : String
  pub login_type : String
  pub timeout : ℤ
  pub active_timeout : ℤ
  pub is_concurrent : Bool
  pub is_share : Bool
  pub token_style : String
  pub cookie_name : String
  pub cookie_path : String
  pub cookie_domain : String
  pub cookie_secure : Bool
  pub cookie_same_site : String
  pub cookie_max_age : ℤ

pub record AuthModeConfig : Type 0 where
  pub mode : String

pub record JwtConfig : Type 0 where
  pub secret : String
  pub issuer : String
  pub ttl_seconds : ℤ
  pub token_name : String

pub record ServiceConfig : Type 0 where
  pub server : ServerConfig
  pub database : DatabaseConfig
  pub redis : RedisConfig
  pub auth : AuthModeConfig
  pub sa_token : SaTokenConfig
  pub jwt : JwtConfig
  pub log_level : String
