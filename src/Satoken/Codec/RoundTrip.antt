-- ===== src/Satoken/Codec/RoundTrip.antt =====
-- satoken/session_codec.go: what `marshalSession` writes, `unmarshalSession` reads.
use acat_go_common.Common.{
  ◌≡◌, refl, ◌∙◌, String, false, Option, none, some, List, [], ◌∷◌, ◌==◌, if◌then◌else◌, Bool-cases,
  inl, inr, arith, All, length,
}
use acat_go_common.Common.Int.{pos, ◌≤ℤ◌}
use acat_go_common.Common.Text.{show_int}
use acat_go_common.Exec.{Return, ok}
use acat_go_common.Satoken.Value.{Value, Entries, null, number, str, object, end, entry}
use acat_go_common.Satoken.Session.{Session, TerminalInfo}
use acat_go_common.Satoken.Json.{
  Json, Fields, decode_any, any_json, entries_json, same_field, read_field, read_string, read_int,
  read_raw, members,
}
use acat_go_common.Satoken.Codec.{
  optional, tagged, wrap_all, terminal_list_value, terminal_values, session_payload,
  marshal_session,
}
use acat_go_common.Satoken.Codec.Decode.{
  unwrap, decode_collection, decode_plain_map, decode_data_map, decode_optional, optional_terminals,
  optional_data_map, token_of, raise_count, RawSession, read_raw_session, decode_session,
  unmarshal_session,
}
use acat_go_common.Satoken.Codec.Free.{
  Free, decode_any-any_json, decode_anys-values_json, to_list-from_list,
}
use acat_go_common.Satoken.Codec.Stable.{KeptMap, decode_members-wrap_all}
use acat_go_common.Satoken.Codec.Ints.{read_int-show_int}
use acat_go_common.Satoken.Codec.Reading.{
  names_field, names_field-optional, read_field_absent, read_field_skip, read_field_hit, empty_eq,
}
use acat_go_common.Satoken.Codec.Terminals.{
  KeptTerminal, terminal_values-AllFree, decode_terminals-values,
}
use acat_go_common.Satoken.Logic.Number.RoundTrip.{FitsInt64}

-- the fields behind the two that may be left out
abbrev late : Session → Entries
late s = entry "loginId" s.login_id (
    entry "token" (if s.token == "" then null else str s.token) (
      entry "historyTerminalCount" (number (show_int s.history_terminal_count)) (
        entry "createTime" (number (show_int s.create_time)) (
          entry "dataMap"
            (tagged "java.util.concurrent.ConcurrentHashMap" (object (wrap_all s.data_map)))
            (entry "terminalList" (terminal_list_value s.terminal_list) end)))))

abbrev login_type_on : Session → Entries
login_type_on s = optional (s.login_type == "") "loginType" (str s.login_type) (late s)

abbrev type_on : Session → Entries
type_on s = optional (s.type == "") "type" (str s.type) (login_type_on s)

abbrev printed : Session → Fields
printed s = entries_json (session_payload s)

read_late {ℓ} :
    {A : Type ℓ} (s : Session) (read : Json → A → Return A) (name : String) (a : A)
    → same_field name "@class" ≡ false
    → same_field name "id" ≡ false
    → same_field name "type" ≡ false
    → same_field name "loginType" ≡ false
    → read_field read name a (printed s) ≡ read_field read name a (entries_json (late s))
unfolding session_payload any_json read_field
read_late s read name a c i t l =
    rw (c, i)
      (read_field_skip read name a (s.type == "") "type" (str s.type) (login_type_on s) t
        ∙ read_field_skip read name a (s.login_type == "") "loginType" (str s.login_type) (late s)
            l)

-- A session that comes back: see the predicates for its terminals and its data map. There were at
-- least as many terminals as are listed.
abbrev pub KeptSession : (String → Option String) → Session → Type 0
KeptSession float64 s =
    FitsInt64 s.history_terminal_count
    × FitsInt64 s.create_time
    × Free float64 s.login_id
    × All (KeptTerminal float64) s.terminal_list
    × KeptMap float64 s.data_map
    × (pos (length s.terminal_list) ≤ℤ s.history_terminal_count)

module _ (float64 : String → Option String) (s : Session) (h : KeptSession float64 s) where
  class_read :
      read_field read_string "@class" "" (printed s) ≡ ok "cn.dev33.satoken.session.SaSession"
  unfolding session_payload any_json read_field read_string names_field
  class_read =
      read_field_absent read_string "@class" "cn.dev33.satoken.session.SaSession" (type_on s)
        (simp names_field-optional)

  id_read : read_field read_string "id" "" (printed s) ≡ ok s.id
  unfolding session_payload any_json read_field read_string names_field
  id_read = read_field_absent read_string "id" s.id (type_on s) (simp names_field-optional)

  type_read : read_field read_string "type" "" (printed s) ≡ ok s.type
  unfolding session_payload any_json read_field read_string names_field
  type_read =
      read_field_hit read_string "type" "" s.type (s.type == "") "type" (str s.type)
        (login_type_on s) refl (simp names_field-optional) (empty_eq s.type) refl

  login_type_read : read_field read_string "loginType" "" (printed s) ≡ ok s.login_type
  unfolding session_payload any_json read_field read_string names_field
  login_type_read =
      read_field_skip read_string "loginType" "" (s.type == "") "type" (str s.type)
        (login_type_on s) refl
      ∙ read_field_hit read_string "loginType" "" s.login_type (s.login_type == "") "loginType"
          (str s.login_type) (late s) refl refl (empty_eq s.login_type) refl

  raw : RawSession
  raw = record {
    id = s.id;
    type = s.type;
    login_type = s.login_type;
    login_id = some (any_json s.login_id);
    token = some (any_json (if s.token == "" then null else str s.token));
    history_terminal_count = s.history_terminal_count;
    create_time = s.create_time;
    terminals = some (any_json (terminal_list_value s.terminal_list));
    data_map =
        some (
          any_json
            (tagged "java.util.concurrent.ConcurrentHashMap" (object (wrap_all s.data_map))));
  }

  login_id_read : read_field read_raw "loginId" none (printed s) ≡ ok (some (any_json s.login_id))
  unfolding any_json read_field same_field
  login_id_read = read_late s read_raw "loginId" none refl refl refl refl

  token_read :
      read_field read_raw "token" none (printed s)
      ≡ ok (some (any_json (if s.token == "" then null else str s.token)))
  unfolding any_json read_field same_field
  token_read = read_late s read_raw "token" none refl refl refl refl

  history_read :
      read_field read_int "historyTerminalCount" (pos 0) (printed s) ≡ ok s.history_terminal_count
  unfolding any_json read_field same_field
  history_read =
      read_late s read_int "historyTerminalCount" (pos 0) refl refl refl refl
      ∙ rw (read_int-show_int s.history_terminal_count (pos 0) h.0)

  create_time_read : read_field read_int "createTime" (pos 0) (printed s) ≡ ok s.create_time
  unfolding any_json read_field same_field
  create_time_read =
      read_late s read_int "createTime" (pos 0) refl refl refl refl
      ∙ rw (read_int-show_int s.create_time (pos 0) h.1)

  data_map_read : read_field read_raw "dataMap" none (printed s) ≡ ok raw.data_map
  unfolding any_json read_field same_field raw
  data_map_read = read_late s read_raw "dataMap" none refl refl refl refl

  terminals_read : read_field read_raw "terminalList" none (printed s) ≡ ok raw.terminals
  unfolding any_json read_field same_field raw
  terminals_read = read_late s read_raw "terminalList" none refl refl refl refl

  raw_read : read_raw_session (marshal_session s) ≡ ok raw
  unfolding read_raw_session marshal_session members any_json raw
  raw_read = rw (
    class_read, id_read, type_read, login_type_read, login_id_read, token_read, history_read,
    create_time_read, terminals_read, data_map_read,
  )

  abbrev token_value : Value
  token_value = if s.token == "" then null else str s.token

  token_value-Free : Free float64 token_value
  unfolding Free
  token_value-Free = elim (Bool-cases (s.token == "")) [ inl e ↦ rw e tt | inr e ↦ rw e tt ]

  token_of-token_value : token_of token_value ≡ s.token
  token_of-token_value = elim (Bool-cases (s.token == "")) [
    | inl e ↦ rw e (empty_eq s.token e)
    | inr e ↦ rw e
  ]

  terminals_decoded :
      (ts : List TerminalInfo)
      → All (KeptTerminal float64) ts
      → optional_terminals float64 (some (any_json (terminal_list_value ts))) ≡ ok (some ts)
  unfolding optional_terminals decode_collection any_json unwrap decode_any terminal_list_value
  terminals_decoded [] k = refl
  terminals_decoded (t ∷ ts) k = rw (
    decode_anys-values_json float64 (terminal_values (t ∷ ts))
        (terminal_values-AllFree float64 (t ∷ ts) k),
    decode_terminals-values float64 (t ∷ ts) k,
  )

  data_map_decoded : optional_data_map float64 raw.data_map ≡ ok s.data_map
  unfolding optional_data_map decode_data_map decode_plain_map any_json members raw
  data_map_decoded =
      rw (decode_members-wrap_all float64 s.data_map h.4, to_list-from_list s.data_map)

  count_kept :
      raise_count s.history_terminal_count (some s.terminal_list) ≡ s.history_terminal_count
  unfolding raise_count
  count_kept = ground (arith, h.5)

  -- What is written for a session is read back as that session, if its numbers fit 64 bits, its login
  -- id, terminals and data map are values that come back, and it counts at least the terminals that
  -- it lists.
  pub unmarshal_session-marshal_session : unmarshal_session float64 (marshal_session s) ≡ ok s
  unfolding unmarshal_session decode_session decode_optional raw
  unmarshal_session-marshal_session = rw (
    raw_read,
    decode_any-any_json float64 s.login_id h.2,
    decode_any-any_json float64 token_value token_value-Free,
    token_of-token_value,
    terminals_decoded s.terminal_list h.3,
    data_map_decoded,
    count_kept,
  )
