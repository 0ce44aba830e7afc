-- ===== src/Satoken/Session/Tests.antt =====
-- Terminal lists at concrete inputs.
use acat_go_common.Common.{◌≡◌, false, ◌||◌, ◌==◌, [], ◌∷◌, if◌then◌else◌, arith}
use acat_go_common.Common.Int.{pos}
use acat_go_common.Satoken.Value.{null}
use acat_go_common.Satoken.Session.{Session, TerminalInfo, has_token, add_terminal, remove_terminal}
use acat_go_common.Satoken.Session.Terminals.{
  IsNumbered, add, drop, run_edits, run_edits-IsNumbered,
}
use acat_go_common.Satoken.Session.Known.{terminals_know}

abbrev phone : TerminalInfo
phone = record {
  index = pos 0;
  token_value = "token-a";
  device_type = "phone";
  device_id = "p1";
  extra = [];
  create_time = pos 0;
}

abbrev fresh : Session
fresh = record {
  id = "s1";
  type = "";
  login_type = "";
  login_id = null;
  token = "";
  history_terminal_count = pos 0;
  create_time = pos 0;
  terminal_list = [];
  data_map = [];
}

fresh-IsNumbered : IsNumbered fresh
fresh-IsNumbered = record { ascending = tt; counted = tt; nonneg = omega arith; distinct = tt }

run_edits-IsNumbered_example :
    IsNumbered (run_edits fresh (add phone ∷ add phone ∷ drop "token-b" ∷ add phone ∷ []))
run_edits-IsNumbered_example =
    run_edits-IsNumbered fresh (add phone ∷ add phone ∷ drop "token-b" ∷ add phone ∷ [])
      (omega arith) fresh-IsNumbered

terminals_know_test :
    (has_token "token-b" (add_terminal fresh phone).terminal_list
      ≡ ("token-a" == "token-b" || has_token "token-b" fresh.terminal_list))
    × (has_token "token-b" (remove_terminal fresh "token-a").terminal_list
        ≡ (if "token-b" == "token-a" then false else has_token "token-b" fresh.terminal_list))
terminals_know_test = terminals_know fresh phone "token-b"
