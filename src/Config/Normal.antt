-- ===== src/Config/Normal.antt =====
-- `Normalize` of config/config.go: what is left to default is filled in, and nothing else changes.
use acat_go_common.Common.{◌≡◌, refl, String, false, ◌==◌, ◌⊎◌, inl, inr, Bool-cases, arith}
use acat_go_common.Common.Int.{ℤ, pos, leb_ℤ, ◌<ℤ◌}
use acat_go_common.Common.Text.{trim_space, lower_is}
use acat_go_common.Config.Records.{ServiceConfig}
use acat_go_common.Config.{default_config, filled, positive_or, normal_mode, normalize}

abbrev pub IsFilled : String → Type 0
IsFilled s = (s == "") ≡ false

abbrev pub IsMode : String → Type 0
IsMode mode = (mode ≡ "jwt") ⊎ (mode ≡ "satoken")

-- Names and texts are there, limits and timeouts are over zero, and the mode is one of the two.
pub record IsUsable (c : ServiceConfig) : Type 0 where
  pub server_name : IsFilled c.server.name
  pub sa_token_token_name : IsFilled c.sa_token.token_name
  pub sa_token_login_type : IsFilled c.sa_token.login_type
  pub sa_token_token_style : IsFilled c.sa_token.token_style
  pub sa_token_cookie_name : IsFilled c.sa_token.cookie_name
  pub sa_token_cookie_path : IsFilled c.sa_token.cookie_path
  pub sa_token_cookie_same_site : IsFilled c.sa_token.cookie_same_site
  pub jwt_issuer : IsFilled c.jwt.issuer
  pub jwt_token_name : IsFilled c.jwt.token_name
  pub log_level : IsFilled c.log_level
  pub server_port : pos 0 <ℤ c.server.port
  pub server_read_timeout : pos 0 <ℤ c.server.read_timeout
  pub server_write_timeout : pos 0 <ℤ c.server.write_timeout
  pub server_idle_timeout : pos 0 <ℤ c.server.idle_timeout
  pub server_shutdown_timeout : pos 0 <ℤ c.server.shutdown_timeout
  pub database_max_open_conns : pos 0 <ℤ c.database.max_open_conns
  pub database_max_idle_conns : pos 0 <ℤ c.database.max_idle_conns
  pub redis_pool_size : pos 0 <ℤ c.redis.pool_size
  pub redis_dial_timeout : pos 0 <ℤ c.redis.dial_timeout
  pub jwt_ttl_seconds : pos 0 <ℤ c.jwt.ttl_seconds
  pub mode : IsMode c.auth.mode

filled-IsFilled : (s default : String) → IsFilled default → IsFilled (filled s default)
filled-IsFilled s default h = elim (Bool-cases (s == "")) [ inl e ↦ rw e h | inr e ↦ rw e e ]

positive_or-positive : (n default : ℤ) → pos 0 <ℤ default → pos 0 <ℤ positive_or n default
positive_or-positive n default h = elim (Bool-cases (leb_ℤ n (pos 0))) [
  | inl e ↦ rw e h
  | inr e ↦ rw e (ground (arith, e))
]

normal_mode-IsMode : (mode : String) → IsMode (normal_mode mode)
unfolding normal_mode
normal_mode-IsMode mode = elim (Bool-cases (lower_is (trim_space mode) "jwt")) [
  | inl e ↦ inl (rw e)
  | inr e ↦ inr (rw e)
]

normal_mode-same : (mode : String) → IsMode mode → normal_mode mode ≡ mode
unfolding normal_mode lower_is trim_space
normal_mode-same mode (inl e) = rw e
normal_mode-same mode (inr e) = rw e

positive_or-same : (n default : ℤ) → pos 0 <ℤ n → positive_or n default ≡ n
positive_or-same n default h = ground (arith, h)

pub normalized : (c : ServiceConfig) → IsUsable (normalize c)
unfolding normalize
normalized c = record {
  server_name = filled-IsFilled c.server.name default_config.server.name refl;
  sa_token_token_name =
      filled-IsFilled c.sa_token.token_name default_config.sa_token.token_name refl;
  sa_token_login_type =
      filled-IsFilled c.sa_token.login_type default_config.sa_token.login_type refl;
  sa_token_token_style =
      filled-IsFilled c.sa_token.token_style default_config.sa_token.token_style refl;
  sa_token_cookie_name =
      filled-IsFilled c.sa_token.cookie_name
        (filled c.sa_token.token_name default_config.sa_token.token_name)
        (filled-IsFilled c.sa_token.token_name default_config.sa_token.token_name refl);
  sa_token_cookie_path =
      filled-IsFilled c.sa_token.cookie_path default_config.sa_token.cookie_path refl;
  sa_token_cookie_same_site =
      filled-IsFilled c.sa_token.cookie_same_site default_config.sa_token.cookie_same_site refl;
  jwt_issuer = filled-IsFilled c.jwt.issuer default_config.jwt.issuer refl;
  jwt_token_name = filled-IsFilled c.jwt.token_name default_config.jwt.token_name refl;
  log_level = filled-IsFilled c.log_level default_config.log_level refl;
  server_port = positive_or-positive c.server.port default_config.server.port (omega arith);
  server_read_timeout =
      positive_or-positive c.server.read_timeout default_config.server.read_timeout (omega arith);
  server_write_timeout =
      positive_or-positive c.server.write_timeout default_config.server.write_timeout (omega arith);
  server_idle_timeout =
      positive_or-positive c.server.idle_timeout default_config.server.idle_timeout (omega arith);
  server_shutdown_timeout =
      positive_or-positive c.server.shutdown_timeout default_config.server.shutdown_timeout
        (omega arith);
  database_max_open_conns =
      positive_or-positive c.database.max_open_conns default_config.database.max_open_conns
        (omega arith);
  database_max_idle_conns =
      positive_or-positive c.database.max_idle_conns default_config.database.max_idle_conns
        (omega arith);
  redis_pool_size =
      positive_or-positive c.redis.pool_size default_config.redis.pool_size (omega arith);
  redis_dial_timeout =
      positive_or-positive c.redis.dial_timeout default_config.redis.dial_timeout (omega arith);
  jwt_ttl_seconds =
      positive_or-positive c.jwt.ttl_seconds default_config.jwt.ttl_seconds (omega arith);
  mode = normal_mode-IsMode c.auth.mode;
}

usable_kept : (c : ServiceConfig) → IsUsable c → normalize c ≡ c
unfolding normalize
usable_kept c h = rw (
  h.server_name,
  h.sa_token_token_name,
  h.sa_token_login_type,
  h.sa_token_token_style,
  h.sa_token_cookie_name,
  h.sa_token_cookie_path,
  h.sa_token_cookie_same_site,
  h.jwt_issuer,
  h.jwt_token_name,
  h.log_level,
  positive_or-same c.server.port default_config.server.port h.server_port,
  positive_or-same c.server.read_timeout default_config.server.read_timeout h.server_read_timeout,
  positive_or-same c.server.write_timeout default_config.server.write_timeout
      h.server_write_timeout,
  positive_or-same c.server.idle_timeout default_config.server.idle_timeout h.server_idle_timeout,
  positive_or-same c.server.shutdown_timeout default_config.server.shutdown_timeout
      h.server_shutdown_timeout,
  positive_or-same c.database.max_open_conns default_config.database.max_open_conns
      h.database_max_open_conns,
  positive_or-same c.database.max_idle_conns default_config.database.max_idle_conns
      h.database_max_idle_conns,
  positive_or-same c.redis.pool_size default_config.redis.pool_size h.redis_pool_size,
  positive_or-same c.redis.dial_timeout default_config.redis.dial_timeout h.redis_dial_timeout,
  positive_or-same c.jwt.ttl_seconds default_config.jwt.ttl_seconds h.jwt_ttl_seconds,
  normal_mode-same c.auth.mode h.mode,
)

-- `Normalize` gives a usable configuration, and changes nothing when it is called again.
pub normalize-IsUsable :
    (c : ServiceConfig) → IsUsable (normalize c) × (normalize (normalize c) ≡ normalize c)
normalize-IsUsable c = (normalized c, usable_kept (normalize c) (normalized c))
