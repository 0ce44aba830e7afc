-- ===== src/Satoken/Codec/Decode.antt =====
-- satoken/session_codec.go: reading a session back, in all forms that are accepted.
use acat_go_common.Common.{
  String, Option, none, some, List, [], ◌∷◌, length, ◌||◌, ◌==◌, if◌then◌else◌,
}
use acat_go_common.Common.Int.{ℤ, pos, ltb_ℤ}
use acat_go_common.Apperr.{plain}
use acat_go_common.Exec.{Return, ok, err}
use acat_go_common.Satoken.Value.{
  Value, Values, Entries, null, bool, str, strings, items, object, nil, cons, end, entry,
}
use acat_go_common.Satoken.Session.{Session, TerminalInfo}
use acat_go_common.Satoken.Json.{
  Json, Fields, jnull, jbool, jnum, jstr, arr, obj, no_json, json, no_field, field, ◌>>=◌, explain,
  to_list, any_json, has_key, number_of, read_field, read_string, read_int, read_raw, members,
  decode_any, decode_anys, read_items, read_map,
}

-- A class name in front of a list is dropped.
unfoldable pub unwrap : Values → Values
unwrap (cons (str class) (cons (items inner) nil)) = inner
unwrap vs = vs

-- the texts of a list that holds nothing else
unfoldable pub all_strings : Values → Option (List String)
all_strings nil = some []
all_strings (cons (str s) vs) = elim (all_strings vs) [ none ↦ none | some ss ↦ some (s ∷ ss) ]
all_strings (cons _ vs) = none

unfoldable pub narrow : Values → Value
unfolding all_strings
narrow vs = elim (all_strings vs) [ none ↦ items vs | some ss ↦ strings ss ]

-- the struct that a session is read into first
pub record RawSession : Type 0 where
  pub id : String
  pub type : String
  pub login_type : String
  pub login_id : Option Json
  pub token : Option Json
  pub history_terminal_count : ℤ
  pub create_time : ℤ
  pub terminals : Option Json
  pub data_map : Option Json

abbrev pub token_of : Value → String
token_of (str sv) = sv
token_of _ = ""

-- There were at least as many terminals as are listed.
unfoldable pub raise_count : ℤ → Option (List TerminalInfo) → ℤ
raise_count count none = count
raise_count count (some infos) =
    if ltb_ℤ count (pos (length infos)) then pos (length infos) else count

abbrev pub listed : Option (List TerminalInfo) → List TerminalInfo
listed none = []
listed (some infos) = infos

unfoldable pub read_raw_session : Json → Return RawSession
unfolding members read_field read_int read_string
read_raw_session j = do
  fs ← members j
  class ← read_field read_string "@class" "" fs
  id ← read_field read_string "id" "" fs
  type ← read_field read_string "type" "" fs
  login_type ← read_field read_string "loginType" "" fs
  login_id ← read_field read_raw "loginId" none fs
  token ← read_field read_raw "token" none fs
  history_terminal_count ← read_field read_int "historyTerminalCount" (pos 0) fs
  create_time ← read_field read_int "createTime" (pos 0) fs
  terminals ← read_field read_raw "terminalList" none fs
  data_map ← read_field read_raw "dataMap" none fs
  ok record {
    id = id;
    type = type;
    login_type = login_type;
    login_id = login_id;
    token = token;
    history_terminal_count = history_terminal_count;
    create_time = create_time;
    terminals = terminals;
    data_map = data_map;
  }

-- `UnmarshalJSON` of a terminal
module _ (float64 : String → Option String) where
  unfoldable pub unmarshal_terminal : Json → Return TerminalInfo
  unfolding members read_field read_int read_string read_map
  unmarshal_terminal j = do
    fs ← members j
    class ← read_field read_string "@class" "" fs
    index ← read_field read_int "index" (pos 0) fs
    token_value ← read_field read_string "tokenValue" "" fs
    device_type ← read_field read_string "deviceType" "" fs
    device_id ← read_field read_string "deviceId" "" fs
    extra ← read_field (read_map float64) "extraData" [] fs
    create_time ← read_field read_int "createTime" (pos 0) fs
    ok record {
      index = index;
      token_value = token_value;
      device_type = device_type;
      device_id = device_id;
      extra = extra;
      create_time = create_time;
    }

  unfoldable pub decode_collection : Json → Return Values
  unfolding decode_any read_field read_items unwrap
  decode_collection jnull = ok nil
  decode_collection (arr js) = do
    list ← explain "解析集合失败: " (decode_anys float64 js)
    ok (unwrap list)
  decode_collection (obj fs) =
      explain "解析集合包装失败: " (read_field (read_items float64) "@items" nil fs)
  decode_collection _ = err (plain "无法识别的集合形态")

  -- Which of several values that do not decode is reported is left to the order of a Go map.
  unfoldable mutual
    unfolding decode_collection narrow has_key decode_any

    pub decode_data_value : Json → Return Value
    decode_data_value jnull = ok null
    decode_data_value (jbool b) = ok (bool b)
    decode_data_value (jnum t) = number_of (float64 t)
    decode_data_value (jstr s) = ok (str s)
    decode_data_value (arr js) = do list ← decode_collection (arr js); ok (narrow list)
    decode_data_value (obj fs) =
        let plain_map = (do es ← decode_members fs; ok (object es)) in
        if has_key "@items" fs
        then (do list ← decode_collection (obj fs); ok (items list))
        else plain_map

    -- the loop of `decodePlainMap`
    pub decode_members : Fields → Return Entries
    decode_members no_field = ok end
    decode_members (field key j fs) =
        let rest = decode_members fs in
        let first = decode_data_value j in
        if key == "@class" || has_key key fs
        then rest
        else do value ← explain "解析 dataMap 失败: " first; es ← rest; ok (entry key value es)

  unfoldable pub decode_plain_map : Json → Return Entries
  unfolding decode_data_value
  decode_plain_map j = do probe ← explain "解析 dataMap 对象失败: " (members j); decode_members probe

  -- Both branches of the probe for `@items` decode every member.
  unfoldable pub decode_data_map : Json → Return Entries
  unfolding decode_plain_map
  decode_data_map jnull = ok end
  decode_data_map (arr (json class (json j no_json))) = decode_plain_map j
  decode_data_map (arr _) = err (plain "dataMap WRAPPER_ARRAY 长度异常")
  decode_data_map (obj fs) =
      if has_key "@items" fs then decode_members fs else decode_plain_map (obj fs)
  decode_data_map _ = err (plain "无法识别的 dataMap 形态")

  -- A decoded element is printed again and read into a terminal.
  unfoldable pub decode_terminals : Values → Return (List TerminalInfo)
  unfolding unmarshal_terminal any_json
  decode_terminals nil = ok []
  decode_terminals (cons v vs) = do
    info ← explain "解析 terminalList 元素失败: " (unmarshal_terminal (any_json v))
    infos ← decode_terminals vs
    ok (info ∷ infos)

  -- the value of a field that may be missing
  unfoldable pub decode_optional : Option Json → Return Value
  unfolding decode_any
  decode_optional none = ok null
  decode_optional (some j) = decode_any float64 j

  unfoldable pub optional_terminals : Option Json → Return (Option (List TerminalInfo))
  unfolding decode_collection decode_terminals
  optional_terminals none = ok none
  optional_terminals (some j) = do
    list ← decode_collection j
    infos ← decode_terminals list
    ok (some infos)

  unfoldable pub optional_data_map : Option Json → Return (List (String × Value))
  unfolding decode_data_map to_list
  optional_data_map none = ok []
  optional_data_map (some j) = do es ← decode_data_map j; ok (to_list es)

  -- the fields that are raw JSON, decoded in the order of the code
  unfoldable pub decode_session : RawSession → Return Session
  unfolding decode_optional optional_terminals optional_data_map raise_count
  decode_session raw = do
    login_id ← explain "解析 SaSession.loginId 失败: " (decode_optional raw.login_id)
    token ← explain "解析 SaSession.token 失败: " (decode_optional raw.token)
    terminals ← optional_terminals raw.terminals
    data_map ← optional_data_map raw.data_map
    ok record {
      id = raw.id;
      type = raw.type;
      login_type = raw.login_type;
      login_id = login_id;
      token = token_of token;
      history_terminal_count = raise_count raw.history_terminal_count terminals;
      create_time = raw.create_time;
      terminal_list = listed terminals;
      data_map = data_map;
    }

  unfoldable pub unmarshal_session : Json → Return Session
  unfolding read_raw_session decode_session
  unmarshal_session j = do
    raw ← explain "解析 SaSession JSON 失败: " (read_raw_session j)
    decode_session raw
