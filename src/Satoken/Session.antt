-- ===== src/Satoken/Session.antt =====
-- satoken/session_codec.go: the session record and its methods.
pub mod Terminals
pub mod Known
mod Tests
use acat_go_common.Common.{
  String, Bool, not, ◌&&◌, Option, none, some, List, [], ◌∷◌, ◌++◌, any, ◌==◌, if◌then◌else◌,
}
use acat_go_common.Common.Int.{ℤ, pos, ◌+ℤ◌, wrap64}
use acat_go_common.Common.Assoc.{lookup, insert}
use acat_go_common.Satoken.Value.{Value, null, str, strings, items, only_strings}

pub record TerminalInfo : Type 0 where
  pub index : ℤ
  pub token_value : String
  pub device_type : String
  pub device_id : String
  pub extra : List (String × Value)
  pub create_time : ℤ

pub record Session : Type 0 where
  pub id : String
  pub type : String
  pub login_type : String
  pub login_id : Value
  pub token : String
  pub history_terminal_count : ℤ
  pub create_time : ℤ
  pub terminal_list : List TerminalInfo
  pub data_map : List (String × Value)

unfoldable pub new_session : String → Session
new_session id = record {
  id = id;
  type = "";
  login_type = "";
  login_id = null;
  token = "";
  history_terminal_count = pos 0;
  create_time = pos 0;
  terminal_list = [];
  data_map = [];
}

unfoldable pub get : Session → String → Option Value
unfolding lookup
get s key = lookup key s.data_map

unfoldable pub set : Session → String → Value → Session
unfolding insert
set s key value = record s { data_map = insert key value s.data_map }

abbrev strings_of : Option Value → List String
strings_of none = []
strings_of (some (strings typed)) = typed
strings_of (some (items typed)) = only_strings typed
strings_of (some _) = []

unfoldable pub string_list : Session → String → List String
unfolding get only_strings
string_list s key = strings_of (get s key)

abbrev string_of : Option Value → String
string_of (some (str sv)) = sv
string_of _ = ""

unfoldable pub string_value : Session → String → String
unfolding get
string_value s key = string_of (get s key)

-- Has a terminal of the list this token?
abbrev pub has_token : String → List TerminalInfo → Bool
has_token token = any (λ t. t.token_value == token)

abbrev default_device : String → String
default_device device = if device == "" then "DEF" else device

unfoldable pub add_terminal : Session → TerminalInfo → Session
add_terminal s info =
    let count = wrap64 (s.history_terminal_count +ℤ pos 1) in
    let numbered = record info { index = count; device_type = default_device info.device_type } in
    if has_token info.token_value s.terminal_list && not (info.token_value == "")
    then s
    else record s {
      history_terminal_count = count;
      terminal_list = s.terminal_list ++ numbered ∷ [];
    }

unfoldable pub drop_token : String → List TerminalInfo → List TerminalInfo
drop_token token [] = []
drop_token token (t ∷ ts) =
    let kept = drop_token token ts in if t.token_value == token then kept else t ∷ kept

unfoldable pub remove_terminal : Session → String → Session
unfolding drop_token
remove_terminal s token = record s { terminal_list = drop_token token s.terminal_list }
