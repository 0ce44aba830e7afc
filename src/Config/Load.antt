-- ===== src/Config/Load.antt =====
-- config/config.go: `Load`. A file, the environment and the YAML package are outside.
use acat_go_common.Common.{String, Option, none, some, ◌==◌, if◌then◌else◌}
use acat_go_common.Common.Int.{ℤ}
use acat_go_common.Apperr.{GoError, wrapped}
use acat_go_common.Config.Records.{ServiceConfig}
use acat_go_common.Config.Placeholders.{done, failed, out_of_fuel, expand_env}
use Prim.Native.String.{◌++◌}
use acat_go_common.Config.{default_config, normalize}
use acat_go_common.Config.Environment.{apply_env}

-- what `os.ReadFile` gives
pub data File : Type 0 where
  missing : File
  unreadable : GoError → File
  contents : String → File

-- The configuration and the error; with an error the configuration is as far as `Load` came.
abbrev pub Loaded : Type 0
Loaded = ServiceConfig × Option GoError

-- Go's `os`, `time` and YAML: the environment, the files, durations, and `yaml.Unmarshal` over a
-- configuration.
pub record Surroundings : Type 0 where
  pub env : String → Option String
  pub read_file : String → File
  pub parse_duration : String → Option ℤ
  pub unmarshal : String → ServiceConfig → Loaded

module _ (w : Surroundings) where
  -- `Load` behind the file
  unfoldable pub finish : ServiceConfig → Loaded
  unfolding apply_env normalize
  finish cfg = (normalize (apply_env w.env w.parse_duration cfg), none)

  unfoldable pub decoded : String → Loaded → Loaded
  unfolding finish
  decoded path (cfg, none) = finish cfg
  decoded path (cfg, some e) = (cfg, some (wrapped ("解析配置文件失败 " ++ path ++ ": ") e ""))

  unfoldable pub load_file : String → File → Loaded
  unfolding decoded expand_env
  load_file path missing = finish default_config
  load_file path (unreadable e) =
      (default_config, some (wrapped ("读取配置文件失败 " ++ path ++ ": ") e ""))
  load_file path (contents raw) = elim (expand_env w.env raw) [
    | done expanded ↦ decoded path (w.unmarshal expanded default_config)
    | failed e ↦ (default_config, some e)
    | out_of_fuel ↦ (default_config, none)
  ]

  unfoldable pub load : String → Loaded
  unfolding load_file
  load path = if path == "" then finish default_config else load_file path (w.read_file path)
