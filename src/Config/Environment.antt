-- ===== src/Config/Environment.antt =====
-- config/config.go: `applyEnv`, what the environment overrides.
use acat_go_common.Common.{
  String, Bool, true, false, Option, none, some, [], ◌∷◌, ◌==◌, if◌then◌else◌, contains,
}
use acat_go_common.Common.Int.{ℤ}
use acat_go_common.Common.Text.Atoi.{atoi}
use acat_go_common.Config.Records.{ServiceConfig}

abbrev pub given : Option String → Option String
given none = none
given (some v) = if v == "" then none else some v

abbrev pub or_else {ℓ} : {A : Type ℓ} → Option A → A → A
or_else none old = old
or_else (some v) old = v

abbrev pub read_by {ℓ} : {A : Type ℓ} → (String → Option A) → Option String → Option A
read_by parse none = none
read_by parse (some v) = parse v

-- `strconv.ParseBool`
unfoldable pub parse_bool : String → Option Bool
parse_bool v =
    if contains ("1" ∷ "t" ∷ "T" ∷ "TRUE" ∷ "true" ∷ "True" ∷ []) v
    then some true
    else if contains ("0" ∷ "f" ∷ "F" ∷ "FALSE" ∷ "false" ∷ "False" ∷ []) v
    then some false
    else none

module _ (env : String → Option String) (parse_duration : String → Option ℤ) where
  -- what a field holds once the variable is looked at: a text that is empty or that does not parse
  -- leaves it alone
  abbrev pub set_str : String → String → String
  set_str old name = or_else (given (env name)) old

  -- `setInt` and `setInt64`
  unfoldable pub set_int : ℤ → String → ℤ
  unfolding atoi
  set_int old name = or_else (read_by atoi (given (env name))) old

  unfoldable pub set_bool : Bool → String → Bool
  unfolding parse_bool
  set_bool old name = or_else (read_by parse_bool (given (env name))) old

  abbrev pub set_duration : ℤ → String → ℤ
  set_duration old name = or_else (read_by parse_duration (given (env name))) old

  unfoldable pub apply_env : ServiceConfig → ServiceConfig
  unfolding set_int set_bool
  apply_env cfg = record {
    server = record {
      name = set_str cfg.server.name "ACAT_SERVER_NAME";
      port = set_int cfg.server.port "ACAT_SERVER_PORT";
      read_timeout = set_duration cfg.server.read_timeout "ACAT_SERVER_READ_TIMEOUT";
      write_timeout = set_duration cfg.server.write_timeout "ACAT_SERVER_WRITE_TIMEOUT";
      idle_timeout = set_duration cfg.server.idle_timeout "ACAT_SERVER_IDLE_TIMEOUT";
      shutdown_timeout = set_duration cfg.server.shutdown_timeout "ACAT_SERVER_SHUTDOWN_TIMEOUT";
    };
    database = record cfg.database {
      host = set_str cfg.database.host "ACAT_DATABASE_HOST";
      port = set_int cfg.database.port "ACAT_DATABASE_PORT";
      database = set_str cfg.database.database "ACAT_DATABASE_NAME";
      username = set_str cfg.database.username "ACAT_DATABASE_USERNAME";
      password = set_str cfg.database.password "ACAT_DATABASE_PASSWORD";
      params = set_str cfg.database.params "ACAT_DATABASE_PARAMS";
      max_open_conns = set_int cfg.database.max_open_conns "ACAT_DATABASE_MAX_OPEN_CONNS";
      max_idle_conns = set_int cfg.database.max_idle_conns "ACAT_DATABASE_MAX_IDLE_CONNS";
    };
    redis = record cfg.redis {
      addr = set_str cfg.redis.addr "ACAT_REDIS_ADDR";
      password = set_str cfg.redis.password "ACAT_REDIS_PASSWORD";
      db = set_int cfg.redis.db "ACAT_REDIS_DB";
      pool_size = set_int cfg.redis.pool_size "ACAT_REDIS_POOL_SIZE";
    };
    sa_token = record {
      token_name = set_str cfg.sa_token.token_name "ACAT_SA_TOKEN_NAME";
      login_type = set_str cfg.sa_token.login_type "ACAT_SA_TOKEN_LOGIN_TYPE";
      timeout = set_int cfg.sa_token.timeout "ACAT_SA_TOKEN_TIMEOUT";
      active_timeout = set_int cfg.sa_token.active_timeout "ACAT_SA_TOKEN_ACTIVE_TIMEOUT";
      is_concurrent = set_bool cfg.sa_token.is_concurrent "ACAT_SA_TOKEN_IS_CONCURRENT";
      is_share = set_bool cfg.sa_token.is_share "ACAT_SA_TOKEN_IS_SHARE";
      token_style = set_str cfg.sa_token.token_style "ACAT_SA_TOKEN_TOKEN_STYLE";
      cookie_name = set_str cfg.sa_token.cookie_name "ACAT_SA_TOKEN_COOKIE_NAME";
      cookie_path = set_str cfg.sa_token.cookie_path "ACAT_SA_TOKEN_COOKIE_PATH";
      cookie_domain = set_str cfg.sa_token.cookie_domain "ACAT_SA_TOKEN_COOKIE_DOMAIN";
      cookie_secure = set_bool cfg.sa_token.cookie_secure "ACAT_SA_TOKEN_COOKIE_SECURE";
      cookie_same_site = set_str cfg.sa_token.cookie_same_site "ACAT_SA_TOKEN_COOKIE_SAME_SITE";
      cookie_max_age = set_int cfg.sa_token.cookie_max_age "ACAT_SA_TOKEN_COOKIE_MAX_AGE";
    };
    auth = record { mode = set_str cfg.auth.mode "ACAT_AUTH_MODE" };
    jwt = record {
      secret = set_str cfg.jwt.secret "ACAT_JWT_SECRET";
      issuer = set_str cfg.jwt.issuer "ACAT_JWT_ISSUER";
      ttl_seconds = set_int cfg.jwt.ttl_seconds "ACAT_JWT_TTL_SECONDS";
      token_name = set_str cfg.jwt.token_name "ACAT_JWT_TOKEN_NAME";
    };
    log_level = set_str cfg.log_level "ACAT_LOG_LEVEL";
  }
