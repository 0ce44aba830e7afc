-- ===== src/Config.antt =====
-- config/config.go: configuration from defaults, a YAML file and the environment. An environment
-- variable is looked up by its name; `time.ParseDuration` and the YAML package are outside.
pub mod Environment
pub mod Load
pub mod Records
pub mod Placeholders
pub mod Normal
pub mod Layers
mod Tests
use acat_go_common.Common.{ℕ, ◌*◌, String, true, false, [], ◌==◌, if◌then◌else◌}
use acat_go_common.Common.Int.{ℤ, pos, negsuc, leb_ℤ}
use acat_go_common.Common.Text.{trim_space, lower_is, show_int}
use Records.{DatabaseConfig, ServiceConfig}
use Prim.Native.String.{◌++◌}

-- the connection string
unfoldable pub dsn : DatabaseConfig → String
unfolding show_int
dsn c =
    let params =
      (if c.params == ""
        then "charset=utf8mb4&parseTime=true&loc=Local&collation=utf8mb4_unicode_ci"
        else c.params) in
    c.username
    ++ ":"
    ++ c.password
    ++ "@tcp("
    ++ c.host
    ++ ":"
    ++ show_int c.port
    ++ ")/"
    ++ c.database
    ++ "?"
    ++ params

abbrev seconds : ℕ → ℤ
seconds n = pos (n * 1_000_000_000)

abbrev pub default_config : ServiceConfig
default_config = record {
  server = record {
    name = "acat-go-service";
    port = pos 8080;
    read_timeout = seconds 15;
    write_timeout = seconds 30;
    idle_timeout = seconds 60;
    shutdown_timeout = seconds 15;
  };
  database = record {
    host = "127.0.0.1";
    port = pos 3306;
    database = "acat_user";
    username = "";
    password = "";
    params = "";
    max_open_conns = pos 20;
    max_idle_conns = pos 10;
    conn_max_lifetime = seconds 1800;
    conn_max_idle_time = seconds 300;
  };
  redis = record {
    addr = "127.0.0.1:6379";
    password = "";
    db = pos 0;
    pool_size = pos 20;
    dial_timeout = seconds 5;
  };
  auth = record { mode = "satoken" };
  sa_token = record {
    token_name = "satoken";
    login_type = "login";
    timeout = pos 2_592_000;
    active_timeout = negsuc 0;
    is_concurrent = true;
    is_share = true;
    token_style = "uuid";
    cookie_name = "";
    cookie_path = "/";
    cookie_domain = "";
    cookie_secure = false;
    cookie_same_site = "Lax";
    cookie_max_age = pos 0;
  };
  jwt = record { secret = ""; issuer = "acat"; ttl_seconds = pos 86400; token_name = "satoken" };
  log_level = "info";
}

-- `if s == "" { s = default }`
abbrev pub filled : String → String → String
filled s default = if s == "" then default else s

-- `if n <= 0 { n = default }`
abbrev pub positive_or : ℤ → ℤ → ℤ
positive_or n default = if leb_ℤ n (pos 0) then default else n

-- the two modes; what is not "jwt" but for case and white space is "satoken"
unfoldable pub normal_mode : String → String
unfolding lower_is trim_space
normal_mode mode = if lower_is (trim_space mode) "jwt" then "jwt" else "satoken"

unfoldable pub normalize : ServiceConfig → ServiceConfig
unfolding normal_mode
normalize c =
    let d = default_config in
    let token_name = filled c.sa_token.token_name d.sa_token.token_name in
    record c {
      server = record {
        name = filled c.server.name d.server.name;
        port = positive_or c.server.port d.server.port;
        read_timeout = positive_or c.server.read_timeout d.server.read_timeout;
        write_timeout = positive_or c.server.write_timeout d.server.write_timeout;
        idle_timeout = positive_or c.server.idle_timeout d.server.idle_timeout;
        shutdown_timeout = positive_or c.server.shutdown_timeout d.server.shutdown_timeout;
      };
      database = record c.database {
        max_open_conns = positive_or c.database.max_open_conns d.database.max_open_conns;
        max_idle_conns = positive_or c.database.max_idle_conns d.database.max_idle_conns;
      };
      redis = record c.redis {
        pool_size = positive_or c.redis.pool_size d.redis.pool_size;
        dial_timeout = positive_or c.redis.dial_timeout d.redis.dial_timeout;
      };
      sa_token = record c.sa_token {
        token_name = token_name;
        login_type = filled c.sa_token.login_type d.sa_token.login_type;
        token_style = filled c.sa_token.token_style d.sa_token.token_style;
        cookie_name = filled c.sa_token.cookie_name token_name;
        cookie_path = filled c.sa_token.cookie_path d.sa_token.cookie_path;
        cookie_same_site = filled c.sa_token.cookie_same_site d.sa_token.cookie_same_site;
      };
      auth = record { mode = normal_mode c.auth.mode };
      jwt = record c.jwt {
        issuer = filled c.jwt.issuer d.jwt.issuer;
        ttl_seconds = positive_or c.jwt.ttl_seconds d.jwt.ttl_seconds;
        token_name = filled c.jwt.token_name d.jwt.token_name;
      };
      log_level = filled c.log_level d.log_level;
    }
