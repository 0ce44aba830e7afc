-- ===== src/Config/Tests.antt =====
-- Configurations at concrete inputs.
use acat_go_common.Common.{◌≡◌, ◌≢◌, refl, String, Option, none, some, ◌==◌, if◌then◌else◌}
use acat_go_common.Common.Int.{pos, negsuc}
use acat_go_common.Config.Records.{ServiceConfig}
use acat_go_common.Config.Placeholders.{done, out_of_fuel, expand_env}
use acat_go_common.Config.Placeholders.Ends.{expand_env-ends}
use acat_go_common.Config.Placeholders.Templates.{
  Template, last, placeholder, render, evaluate, told, reads, no_value, IsReadable,
  expand_env-render,
}
use acat_go_common.Config.{dsn, default_config, normalize}
use acat_go_common.Config.Load.{missing, contents, Surroundings, load}
use acat_go_common.Config.Normal.{IsUsable, normalize-IsUsable}
use acat_go_common.Config.Layers.{Usable, load-Usable, Heard, load_port}

abbrev lookup : String → Option String
lookup name =
    if name == "ACAT_SERVER_PORT"
    then some "9601"
    else if name == "DB_HOST"
    then some "db:${X}"
    else none

-- `host: ${DB_HOST:localhost}, db: ${DB:acat}.`
abbrev template : Template
template =
    placeholder "host: " "DB_HOST" (some "localhost")
      (placeholder ", db: " "DB" (some "acat") (last "."))

abbrev empty_server : ServiceConfig
empty_server = record default_config { server = record default_config.server { port = negsuc 4 } }

abbrev from_file : ServiceConfig
from_file = record default_config { server = record default_config.server { port = pos 7000 } }

abbrev w : Surroundings
w = record {
  env = lookup;
  read_file = λ path. if path == "app.yaml" then contents "port: ${PORT:7000}" else missing;
  parse_duration = λ v. none;
  unmarshal = λ text cfg. (from_file, none);
}

expands : expand_env lookup (render template) ≡ done "host: db:${X}, db: acat."
unfolding expand_env render
expands = refl

means : evaluate lookup template ≡ reads "host: db:${X}, db: acat."
unfolding evaluate
means = refl

lacks_value : evaluate lookup (placeholder "" "PASSWORD" none template) ≡ no_value "PASSWORD"
unfolding evaluate
lacks_value = refl

dsn_runs :
    dsn (record default_config.database { username = "u"; password = "p" })
    ≡ "u:p@tcp(127.0.0.1:3306)/acat_user?charset=utf8mb4&parseTime=true&loc=Local&collation=utf8mb4_unicode_ci"
unfolding dsn
dsn_runs = refl

expand_env-ends_example : expand_env lookup "${A:${B:c}}" ≢ out_of_fuel
expand_env-ends_example = expand_env-ends lookup "${A:${B:c}}"

template-IsReadable : IsReadable template
unfolding IsReadable
template-IsReadable = (refl, refl, refl, (refl, refl, refl, refl))

expand_env-render_example : expand_env lookup (render template) ≡ told (evaluate lookup template)
expand_env-render_example = expand_env-render lookup template template-IsReadable

normalize-IsUsable_example :
    IsUsable (normalize empty_server)
    × (normalize (normalize empty_server) ≡ normalize empty_server)
normalize-IsUsable_example = normalize-IsUsable empty_server

load-Usable_example : Usable (load w "app.yaml")
load-Usable_example = load-Usable w "app.yaml"

file_expands : expand_env lookup "port: ${PORT:7000}" ≡ done "port: 7000"
unfolding expand_env
file_expands = refl

load_port_test : Heard (some "9601") (pos 7000) (load w "app.yaml").0.server.port
load_port_test =
    load_port w "app.yaml" "port: ${PORT:7000}" "port: 7000" from_file refl refl file_expands refl

loads : (load w "app.yaml").0.server.port ≡ pos 9601
unfolding load
loads = refl
