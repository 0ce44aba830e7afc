-- ===== src/Satoken/Codec/Tests.antt =====
-- Sessions as JSON at concrete inputs.
use acat_go_common.Common.{◌≡◌, refl, String, true, false, Option, none, some, [], ◌∷◌, arith}
use acat_go_common.Common.Int.{pos, negsuc}
use acat_go_common.Exec.{Return, ok}
use acat_go_common.Satoken.Value.{
  Value, null, bool, number, str, strings, items, object, nil, cons, end, entry,
}
use acat_go_common.Satoken.Session.{Session, TerminalInfo, set, string_list}
use acat_go_common.Satoken.Json.{
  Json, jnum, jstr, arr, obj, no_json, json, no_field, field, any_json, from_list, strings_json,
}
use acat_go_common.Satoken.Codec.{tagged, marshal_session, session_payload, wrap_value}
use acat_go_common.Satoken.Codec.Decode.{unmarshal_session, decode_data_value, narrow, all_strings}
use acat_go_common.Satoken.Codec.Free.{Free, has_entry_key}
use acat_go_common.Satoken.Codec.Stable.{Stable, Kept, KeptMap}
use acat_go_common.Satoken.Codec.Terminals.{KeptTerminal}
use acat_go_common.Satoken.Codec.RoundTrip.{KeptSession, unmarshal_session-marshal_session}
use acat_go_common.Satoken.Codec.Stored.{with_codec, saved_session_is_read}
use acat_go_common.Satoken.Codec.Forms.{wrapper, codes_decode_alike, nested_pair_is_cut}
use acat_go_common.Satoken.Codec.Decoded.{PlainMap, Counted, unmarshal_session-PlainMap}
use acat_go_common.Satoken.Keys.{Config}
use acat_go_common.Satoken.Token.{Rng}
use acat_go_common.Satoken.Memory.{MemoryStore, memory_at}
use acat_go_common.Satoken.Memory.Refinement.{memory-IsHealthy}
use acat_go_common.Satoken.Logic.{Deps, login_id_of, get_session, save_session}

-- numbers that float64 keeps
abbrev exact : String → Option String
exact t = some t

abbrev phone : TerminalInfo
phone = record {
  index = pos 1;
  token_value = "token-a";
  device_type = "DEF";
  device_id = "";
  extra = [];
  create_time = pos 1_700_000;
}

abbrev signed : Session
signed = record {
  id = "s1";
  type = "Account-Session";
  login_type = "login";
  login_id = str "7";
  token = "";
  history_terminal_count = pos 2;
  create_time = pos 1_600_000;
  terminal_list = phone ∷ [];
  data_map =
      ("permissions", strings ("user:read" ∷ "user:write" ∷ []))
      ∷ ("username", str "root")
      ∷ ("limits", items (cons (number "3") (cons (bool true) nil)))
      ∷ ("profile", object (entry "age" (number "30") (entry "tags" (strings []) end)))
      ∷ [];
}

phone-Kept : KeptTerminal exact phone
unfolding Free from_list
phone-Kept = (omega arith, refl, omega arith, refl, tt)

signed-Kept : KeptSession exact signed
unfolding Free Stable Kept KeptMap has_entry_key all_strings
signed-Kept = (
  omega arith,
  omega arith,
  tt,
  (phone-Kept, tt),
  (
    refl,
    refl,
    tt,
    (
      refl,
      refl,
      tt,
      (
        refl,
        refl,
        ((refl, (tt, tt)), refl),
        (refl, refl, (refl, refl, refl, refl, (refl, refl, refl, tt, tt)), tt),
      ),
    ),
  ),
  omega arith,
)

unmarshal_session-marshal_session_example :
    unmarshal_session exact (marshal_session signed) ≡ ok signed
unmarshal_session-marshal_session_example =
    unmarshal_session-marshal_session exact signed signed-Kept

round_trip_runs : unmarshal_session exact (marshal_session signed) ≡ ok signed
unfolding unmarshal_session marshal_session session_payload any_json
round_trip_runs = refl

codes_decode_alike_example :
    (v : Value) × (decode_data_value exact
        (arr (json (jstr "java.util.ArrayList") (json (arr (strings_json ("a" ∷ []))) no_json)))
      ≡ ok v)
    × (string_list (set signed "permissions" v) "permissions" ≡ "a" ∷ [])
codes_decode_alike_example =
    codes_decode_alike exact ("a" ∷ []) _ (wrapper "java.util.ArrayList") signed "permissions"

nested_pair_is_cut_test :
    decode_data_value exact (
      any_json
        (wrap_value (object (entry "path" (tagged "home" (items (cons (number "1") nil))) end))))
    ≡ ok (object (entry "path" (narrow (cons (number "1") nil)) end))
unfolding Free
nested_pair_is_cut_test =
    nested_pair_is_cut exact "path" "home" (cons (number "1") nil) refl refl (refl, tt)

-- `{"id": "s1", "historyTerminalCount": -3, "dataMap": {"@class": "x", "a": 1, "a": 2}}`
abbrev loose : Json
loose = obj (
    field "id" (jstr "s1") (
      field "historyTerminalCount" (jnum "-3") (
        field "dataMap"
          (obj (field "@class" (jstr "x") (field "a" (jnum "1") (field "a" (jnum "2") no_field))))
          no_field)))

abbrev decoded : Session
decoded = record {
  id = "s1";
  type = "";
  login_type = "";
  login_id = null;
  token = "";
  history_terminal_count = negsuc 2;
  create_time = pos 0;
  terminal_list = [];
  data_map = ("a", number "2") ∷ [];
}

abbrev config : Config
config = record {
  token_name = "satoken";
  login_type = "login";
  timeout = pos 3600;
  active_timeout = negsuc 0;
  is_concurrent = true;
  is_share = false;
  token_style = "uuid";
}

abbrev rng : Rng
rng = record { uuid_new_random = ok "u"; uuid_new_string = "u"; read = λ i n. ok [] }

abbrev deps : Deps MemoryStore
deps = record {
  store = memory_at (λ d. d) none (pos 0);
  marshal_session = λ s. ok "";
  unmarshal_session = λ raw. ok signed;
  format_value = λ v. "";
  cfg = config;
  now_ms = pos 90_000;
  rng = rng;
  new_session_id = "s2";
}

-- a text for the one value that is printed here
abbrev print : Json → String
print j = "signed"

abbrev parse : String → Return Json
parse raw = ok (marshal_session signed)

saved_session_is_read_example :
    (get_session
      (with_codec print parse exact deps)
      (login_id_of deps.format_value signed)
      (save_session (with_codec print parse exact deps) signed []).1).0
    ≡ ok (some signed)
saved_session_is_read_example =
    saved_session_is_read print parse exact deps (memory-IsHealthy (λ d. d) (pos 0))
      (refl, omega arith) signed [] refl signed-Kept

loose_decodes : unmarshal_session exact loose ≡ ok decoded
unfolding unmarshal_session
loose_decodes = refl

unmarshal_session-PlainMap_example : PlainMap decoded.data_map × Counted decoded
unmarshal_session-PlainMap_example = unmarshal_session-PlainMap exact loose decoded loose_decodes
