-- ===== src/Permission/Tests.antt =====
-- Permission checks at concrete actors.
use acat_go_common.Common.{
  ◌≡◌, ◌↔◌, ◌⊎◌, refl, String, true, false, Option, none, some, List, [], ◌∷◌, All, arith,
}
use acat_go_common.Common.Int.{pos, negsuc}
use acat_go_common.Exec.{Return, ok}
use acat_go_common.Satoken.Value.{str, strings}
use acat_go_common.Satoken.Session.{Session, set}
use acat_go_common.Satoken.Json.{Json}
use acat_go_common.Satoken.Codec.{marshal_session}
use acat_go_common.Satoken.Codec.Decode.{all_strings}
use acat_go_common.Satoken.Codec.Free.{Free, has_entry_key}
use acat_go_common.Satoken.Codec.Stable.{Stable, Kept, KeptMap}
use acat_go_common.Satoken.Codec.RoundTrip.{KeptSession}
use acat_go_common.Satoken.Codec.Stored.{with_codec}
use acat_go_common.Satoken.Keys.{Config}
use acat_go_common.Satoken.Token.{Rng}
use acat_go_common.Satoken.Memory.{MemoryStore, memory_at}
use acat_go_common.Satoken.Memory.Refinement.{memory-IsHealthy}
use acat_go_common.Satoken.Logic.{Deps, login_id_of, get_session, save_session}
use acat_go_common.Satoken.Logic.Stored.{completed}
use acat_go_common.Permission.Saved.{Allows, saved_codes_decide}
use acat_go_common.Permission.{
  Actor, actor_from, refused, require_permission, require_all_permissions, require_any_permission,
  require_permission_groups,
}
use acat_go_common.Permission.Decision.{
  Grants, require_permission-Grants, require_all_permissions-Grants,
}
use acat_go_common.Permission.AnyOf.{
  GrantsAny, require_any_permission-GrantsAny, require_permission_groups-GrantsAny,
}

abbrev reader : Session
reader = record {
  id = "s1";
  type = "Account-Session";
  login_type = "login";
  login_id = str "7";
  token = "";
  history_terminal_count = pos 0;
  create_time = pos 0;
  terminal_list = [];
  data_map =
      ("permissions", strings ("page:read" ∷ "page:list" ∷ []))
      ∷ ("roles", strings ("viewer" ∷ []))
      ∷ [];
}

abbrev actor : Actor
actor = record {
  login_id = "7";
  session = some reader;
  checker = some (record { has_logic = true });
}

require_permission-Grants_example :
    (require_permission (some actor) "page:read" ≡ ok tt ↔ Grants (some actor) "page:read")
    × ((require_permission (some actor) "page:read" ≡ ok tt)
        ⊎ (require_permission (some actor) "page:read" ≡ refused))
require_permission-Grants_example = require_permission-Grants (some actor) "page:read"

require_all_permissions-Grants_test :
    require_all_permissions (some actor) ("page:read" ∷ "page:edit" ∷ []) ≡ ok tt
    ↔ All (Grants (some actor)) ("page:read" ∷ "page:edit" ∷ [])
require_all_permissions-Grants_test =
    require_all_permissions-Grants (some actor) ("page:read" ∷ "page:edit" ∷ [])

require_any_permission-GrantsAny_example :
    require_any_permission (some actor) ("page:edit" ∷ "page:read" ∷ []) ≡ ok tt
    ↔ GrantsAny (some actor) ("page:edit" ∷ "page:read" ∷ [])
require_any_permission-GrantsAny_example =
    require_any_permission-GrantsAny (some actor) ("page:edit" ∷ "page:read" ∷ [])

require_permission_groups-GrantsAny_test :
    require_permission_groups
        (some actor)
        (("page:edit" ∷ "page:read" ∷ []) ∷ ("page:list" ∷ []) ∷ [])
      ≡ ok tt
    ↔ All (GrantsAny (some actor)) (("page:edit" ∷ "page:read" ∷ []) ∷ ("page:list" ∷ []) ∷ [])
require_permission_groups-GrantsAny_test =
    require_permission_groups-GrantsAny (some actor)
      (("page:edit" ∷ "page:read" ∷ []) ∷ ("page:list" ∷ []) ∷ [])

-- numbers that float64 keeps
abbrev exact : String → Option String
exact t = some t

abbrev chosen : List String
chosen = "page:edit" ∷ []

abbrev granted : Session
granted = record reader {
  data_map = ("permissions", strings ("page:edit" ∷ [])) ∷ ("roles", strings ("viewer" ∷ [])) ∷ [];
}

abbrev config : Config
config = record {
  token_name = "satoken";
  login_type = "login";
  timeout = pos 3600;
  active_timeout = negsuc 0;
  is_concurrent = true;
  is_share = false;
  token_style = "uuid";
}

abbrev rng : Rng
rng = record { uuid_new_random = ok "u"; uuid_new_string = "u"; read = λ i n. ok [] }

abbrev deps : Deps MemoryStore
deps = record {
  store = memory_at (λ d. d) none (pos 0);
  marshal_session = λ s. ok "";
  unmarshal_session = λ raw. ok granted;
  format_value = λ v. "";
  cfg = config;
  now_ms = pos 90_000;
  rng = rng;
  new_session_id = "s2";
}

-- a text for the one value that is printed here
abbrev print : Json → String
print j = "granted"

abbrev parse : String → Return Json
parse raw = ok (marshal_session granted)

granted-Kept : KeptSession exact (completed deps (set reader "permissions" (strings chosen)))
unfolding Free Stable Kept KeptMap has_entry_key all_strings set
granted-Kept =
    (omega arith, omega arith, tt, tt, (refl, refl, tt, (refl, refl, tt, tt)), omega arith)

saved_codes_decide_example :
    (read : Session) × ((get_session
        (with_codec print parse exact deps)
        (login_id_of deps.format_value (set reader "permissions" (strings chosen)))
        (save_session
          (with_codec print parse exact deps)
          (set reader "permissions" (strings chosen))
          []).1).0
      ≡ ok (some read))
    × (require_permission
            (some (actor_from deps.format_value (some read) (some (record { has_logic = true }))))
            "page:edit"
          ≡ ok tt
        ↔ Allows (set reader "permissions" (strings chosen)) chosen "page:edit")
unfolding set
saved_codes_decide_example =
    saved_codes_decide print parse exact deps (memory-IsHealthy (λ d. d) (pos 0))
      (refl, omega arith) (record { has_logic = true }) refl reader chosen "page:edit" [] refl
      granted-Kept
