-- ===== src/Satoken/Codec.antt =====
-- satoken/session_codec.go: the JSON form of a session, as Jackson writes it, and the forms that are
-- read back: `["class", value]`, `{"@class": …, "@items": [...]}` and the bare value.
pub mod Decode
pub mod Free
pub mod Stable
mod Ints
mod Reading
pub mod Terminals
pub mod RoundTrip
pub mod Stored
pub mod Forms
pub mod Decoded
mod Tests
use acat_go_common.Common.{String, Bool, true, false, List, [], ◌∷◌, ◌==◌, if◌then◌else◌}
use acat_go_common.Common.Int.{pos, eqb_ℤ}
use acat_go_common.Common.Text.{show_int}
use acat_go_common.Satoken.Value.{
  Value, Values, Entries, null, number, str, strings, items, object, nil, cons, end, entry,
}
use acat_go_common.Satoken.Session.{Session, TerminalInfo}
use acat_go_common.Satoken.Json.{Json, from_list, any_json}

-- `,omitempty`
unfoldable pub optional : Bool → String → Value → Entries → Entries
optional empty key v rest = if empty then rest else entry key v rest

abbrev is_nil {ℓ} : {A : Type ℓ} → List A → Bool
is_nil [] = true
is_nil (_ ∷ _) = false

-- what `TerminalInfo.MarshalJSON` prints
unfoldable pub terminal_payload : TerminalInfo → Entries
unfolding optional from_list show_int
terminal_payload t = entry "@class" (str "cn.dev33.satoken.session.SaTerminalInfo") (
    optional (eqb_ℤ t.index (pos 0)) "index" (number (show_int t.index)) (
      optional (t.token_value == "") "tokenValue" (str t.token_value) (
        optional (t.device_type == "") "deviceType" (str t.device_type) (
          optional (t.device_id == "") "deviceId" (str t.device_id) (
            optional (is_nil t.extra) "extraData" (object (from_list t.extra)) (
              optional (eqb_ℤ t.create_time (pos 0)) "createTime" (number (show_int t.create_time))
                end))))))

unfoldable pub terminal_values : List TerminalInfo → Values
unfolding terminal_payload
terminal_values [] = nil
terminal_values (t ∷ ts) = cons (object (terminal_payload t)) (terminal_values ts)

-- the elements of a `[]string` as a `[]any`
unfoldable pub as_values : List String → Values
as_values [] = nil
as_values (s ∷ ss) = cons (str s) (as_values ss)

-- `[]any{class, value}`
abbrev pub tagged : String → Value → Value
tagged class v = items (cons (str class) (cons v nil))

unfoldable pub wrap_value : Value → Value
unfolding as_values
wrap_value (strings ss) = tagged "java.util.ArrayList" (items (as_values ss))
wrap_value (items vs) = tagged "java.util.ArrayList" (items vs)
wrap_value v = v

unfoldable pub wrap_all : List (String × Value) → Entries
unfolding wrap_value
wrap_all [] = end
wrap_all (e ∷ es) = entry e.0 (wrap_value e.1) (wrap_all es)

abbrev pub terminal_list_value : List TerminalInfo → Value
unfolding terminal_values
terminal_list_value [] = null
terminal_list_value (t ∷ ts) = tagged "java.util.Vector" (items (terminal_values (t ∷ ts)))

unfoldable pub session_payload : Session → Entries
unfolding optional wrap_all show_int terminal_values
session_payload s = entry "@class" (str "cn.dev33.satoken.session.SaSession") (
    entry "id" (str s.id) (
      optional (s.type == "") "type" (str s.type) (
        optional (s.login_type == "") "loginType" (str s.login_type) (
          entry "loginId" s.login_id (
            entry "token" (if s.token == "" then null else str s.token) (
              entry "historyTerminalCount" (number (show_int s.history_terminal_count)) (
                entry "createTime" (number (show_int s.create_time)) (
                  entry "dataMap"
                    (tagged "java.util.concurrent.ConcurrentHashMap" (object (wrap_all s.data_map)))
                    (entry "terminalList" (terminal_list_value s.terminal_list) end)))))))))

-- A session is there, and its data map is not nil.
unfoldable pub marshal_session : Session → Json
unfolding session_payload any_json
marshal_session s = any_json (object (session_payload s))
