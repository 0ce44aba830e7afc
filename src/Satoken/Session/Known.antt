-- ===== src/Satoken/Session/Known.antt =====
-- Which tokens a session of satoken/session_codec.go knows after a terminal is added or removed.
use acat_go_common.Common.{
  ◌≡◌, ◌≢◌, String, true, false, List, [], ◌∷◌, ◌++◌, arith, ◌==◌, eq_iff, ◌||◌, if◌then◌else◌,
}
use acat_go_common.Common.Int.{pos, ◌+ℤ◌, wrap64}
use acat_go_common.Satoken.Session.{
  TerminalInfo, Session, has_token, default_device, add_terminal, remove_terminal,
}
use acat_go_common.Satoken.Session.Terminals.{has_token-drop}

has_token-append_last :
    (token : String) (ts : List TerminalInfo) (t : TerminalInfo)
    → t.token_value ≡ token
    → has_token token (ts ++ t ∷ []) ≡ true
has_token-append_last token [] t e = ground (arith, eq_iff t.token_value token)
has_token-append_last token (u ∷ ts) t e = ground (arith, has_token-append_last token ts t e)

has_token-append_other :
    (token : String) (ts : List TerminalInfo) (t : TerminalInfo)
    → t.token_value ≢ token
    → has_token token (ts ++ t ∷ []) ≡ has_token token ts
has_token-append_other token [] t n = ground (arith, eq_iff t.token_value token)
has_token-append_other token (u ∷ ts) t n = ground (arith, has_token-append_other token ts t n)

-- the terminal that `AddTerminal` stores
abbrev numbered_info : Session → TerminalInfo → TerminalInfo
numbered_info s info = record info {
  index = wrap64 (s.history_terminal_count +ℤ pos 1);
  device_type = default_device info.device_type;
}

after_add :
    (s : Session) (info : TerminalInfo) (token : String)
    → has_token token (add_terminal s info).terminal_list
      ≡ (info.token_value == token || has_token token s.terminal_list)
unfolding add_terminal
after_add s info token = ground (
  arith,
  has_token-append_last token s.terminal_list (numbered_info s info),
  has_token-append_other token s.terminal_list (numbered_info s info),
  eq_iff info.token_value token,
)

after_remove :
    (s : Session) (token other : String)
    → has_token other (remove_terminal s token).terminal_list
      ≡ (if other == token then false else has_token other s.terminal_list)
unfolding remove_terminal
after_remove s token other = has_token-drop token other s.terminal_list

-- Adding a terminal makes its token known and no other token; removing a token makes it unknown
-- and no other token.
pub terminals_know :
    (s : Session) (info : TerminalInfo) (token : String)
    → (has_token token (add_terminal s info).terminal_list
        ≡ (info.token_value == token || has_token token s.terminal_list))
      × (has_token token (remove_terminal s info.token_value).terminal_list
          ≡ (if token == info.token_value then false else has_token token s.terminal_list))
terminals_know s info token = (after_add s info token, after_remove s info.token_value token)
