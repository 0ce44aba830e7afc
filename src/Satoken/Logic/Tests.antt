-- ===== src/Satoken/Logic/Tests.antt =====
-- Logging in and out over the memory store at concrete inputs.
use acat_go_common.Common.{
  ◌≡◌, refl, ap, String, none, some, Bool, true, false, List, [], ◌∷◌, arith, ◌==◌,
}
use mathlib.Core.Bool.{false≢true}
use acat_go_common.Common.Int.{ℤ, pos, negsuc, ◌+ℤ◌, ◌-ℤ◌, ◌*ℤ◌, ◌<ℤ◌, ◌≤ℤ◌}
use acat_go_common.Common.Text.{show_int, trim_space}
use acat_go_common.Common.Assoc.{lookup}
use acat_go_common.Exec.{ok, err, try, ◌>>=◌}
use acat_go_common.Exec.Triple.{Outcome}
use acat_go_common.Satoken.Value.{str}
use acat_go_common.Satoken.Session.{Session, TerminalInfo, add_terminal}
use acat_go_common.Satoken.Keys.{Config, token_key, session_key, token_session_key, last_active_key}
use acat_go_common.Satoken.Token.{Rng, new_token_value}
use acat_go_common.Satoken.Memory.{MemoryEntry, MemoryStore, memory_at, get, set, delete}
use acat_go_common.Satoken.Memory.Refinement.{view, memory-IsHealthy}
use acat_go_common.Satoken.Logic.{
  Deps, missing, login, login_shared, login_fresh, login_id_of, get_session_by_login_id,
  get_session_by_id, save_session_for, signed_in, new_terminal, set_last_active_to_now,
  unless_missing, first_token, replaced, drop_terminals, check_login, logout,
}
use acat_go_common.Satoken.Logic.Number.{parse_int64}
use acat_go_common.Satoken.Logic.Number.RoundTrip.{FitsInt64, parse_int64-show_int}
use acat_go_common.Satoken.Logic.Revocation.{logout_revokes, logout_keeps_others}
use acat_go_common.Satoken.Logic.Acceptance.{login_accepted}
use acat_go_common.Satoken.Logic.Isolation.{login_keeps_others}
use acat_go_common.Satoken.Logic.Kickout.{login_kicks_out}
use acat_go_common.Satoken.Logic.Activity.{check_login_activity}

abbrev config : Bool → ℤ → Config
config concurrent active_timeout = record {
  token_name = "satoken";
  login_type = "login";
  timeout = pos 3600;
  active_timeout = active_timeout;
  is_concurrent = concurrent;
  is_share = false;
  token_style = "uuid";
}

abbrev terminal : String → TerminalInfo
terminal token = record {
  index = pos 1;
  token_value = token;
  device_type = "DEF";
  device_id = "";
  extra = [];
  create_time = pos 0;
}

-- a session with one terminal
abbrev session_with : String → Session
session_with token = record {
  id = "session-1";
  type = "Account-Session";
  login_type = "login";
  login_id = str "7";
  token = "";
  history_terminal_count = pos 1;
  create_time = pos 0;
  terminal_list = terminal token ∷ [];
  data_map = [];
}

abbrev rng_example : Rng
rng_example = record {
  uuid_new_random = ok "token-b";
  uuid_new_string = "token-b";
  read = λ i n. ok [];
}

abbrev payload : List TerminalInfo → String
payload [] = "none"
payload (t ∷ ts) = t.token_value

-- a payload is the token of a session's first terminal
abbrev deps : Bool → ℤ → Deps MemoryStore
deps concurrent active_timeout = record {
  store = memory_at (λ d. d) none (pos 0);
  marshal_session = λ s. ok (payload s.terminal_list);
  unmarshal_session = λ raw. ok (session_with raw);
  format_value = λ v. "";
  cfg = config concurrent active_timeout;
  now_ms = pos 90_000;
  rng = rng_example;
  new_session_id = "session-2";
}

abbrev open_deps : Deps MemoryStore
open_deps = deps true (negsuc 0)

abbrev exclusive_deps : Deps MemoryStore
exclusive_deps = deps false (negsuc 0)

abbrev limited_deps : Deps MemoryStore
limited_deps = deps true (pos 60)

abbrev entry : String → MemoryEntry
entry value = record { value = value; expires_at = pos 3_600_000_000_000; forever = false }

-- login id 7 has the token `token-a`
abbrev signed_store : MemoryStore
signed_store =
    ("satoken:login:token:token-a", entry "7")
    ∷ ("satoken:login:session:7", entry "token-a")
    ∷ ("satoken:login:last-active:token-a", entry "50000")
    ∷ []

login_runs : (login open_deps "7" signed_store).0 ≡ ok "token-b"
unfolding login login_shared login_fresh login_id_of get_session_by_login_id get_session_by_id
    save_session_for signed_in new_terminal add_terminal set_last_active_to_now unless_missing set
    try ◌>>=◌ new_token_value first_token session_key token_key last_active_key trim_space get
login_runs = refl

exclusive_login_runs : (login exclusive_deps "7" signed_store).0 ≡ ok "token-b"
unfolding login login_shared login_fresh login_id_of get_session_by_login_id get_session_by_id
    save_session_for signed_in new_terminal add_terminal set_last_active_to_now unless_missing
    replaced drop_terminals set delete try ◌>>=◌ new_token_value first_token session_key token_key
    last_active_key trim_space get
exclusive_login_runs = refl

logout_revokes_example :
    (view (pos 0) (logout open_deps "token-a" signed_store).1 (token_key open_deps.cfg "token-a")
      ≡ none)
    × (view
          (pos 0)
          (logout open_deps "token-a" signed_store).1
          (last_active_key open_deps.cfg "token-a")
        ≡ none)
    × (view
          (pos 0)
          (logout open_deps "token-a" signed_store).1
          (token_session_key open_deps.cfg "token-a")
        ≡ none)
    × ((check_login open_deps "token-a" (logout open_deps "token-a" signed_store).1).0
        ≡ err missing)
logout_revokes_example =
    logout_revokes open_deps (memory-IsHealthy (λ d. d) (pos 0)) "token-a" signed_store

logout_keeps_others_test :
    view (pos 0) (logout open_deps "token-c" signed_store).1 (token_key open_deps.cfg "token-a")
    ≡ view (pos 0) signed_store (token_key open_deps.cfg "token-a")
logout_keeps_others_test =
    logout_keeps_others open_deps (memory-IsHealthy (λ d. d) (pos 0)) "token-c" "token-a"
      signed_store (λ e. false≢true (ap (λ t. t == "token-a") e))

login_accepted_example :
    (check_login open_deps "token-b" (login open_deps "7" signed_store).1).0 ≡ ok "7"
login_accepted_example =
    login_accepted open_deps (memory-IsHealthy (λ d. d) (pos 0)) (refl, omega arith) "7" "token-b"
      signed_store login_runs (λ e. false≢true (ap (λ t. t == "") e)) refl

login_keeps_others_example :
    view (pos 0) (login open_deps "7" signed_store).1 (token_key open_deps.cfg "token-a")
    ≡ view (pos 0) signed_store (token_key open_deps.cfg "token-a")
login_keeps_others_example =
    login_keeps_others open_deps (memory-IsHealthy (λ d. d) (pos 0)) "7" "token-b" "token-a"
      signed_store refl login_runs (λ e. false≢true (ap (λ t. t == "token-a") e))

session_is_stored : view (pos 0) signed_store (session_key exclusive_deps.cfg "7") ≡ some "token-a"
unfolding view session_key lookup
session_is_stored = refl

login_kicks_out_example :
    (view (pos 0) (login exclusive_deps "7" signed_store).1 (token_key exclusive_deps.cfg "token-a")
      ≡ none)
    × ((check_login exclusive_deps "token-a" (login exclusive_deps "7" signed_store).1).0
        ≡ err missing)
login_kicks_out_example =
    login_kicks_out exclusive_deps (memory-IsHealthy (λ d. d) (pos 0)) "token-a"
      (λ e. false≢true (ap (λ t. t == "") e)) "7" "token-a" "token-b" (session_with "token-a")
      signed_store refl session_is_stored refl refl exclusive_login_runs
      (λ e. false≢true (ap (λ t. t == "token-a") e))

token_is_stored : view (pos 0) signed_store (token_key limited_deps.cfg "token-a") ≡ some "7"
unfolding view token_key lookup
token_is_stored = refl

activity_is_stored :
    view (pos 0) signed_store (last_active_key limited_deps.cfg "token-a") ≡ some "50000"
unfolding view last_active_key lookup
activity_is_stored = refl

seven_is_filled : (trim_space "7" == "") ≡ false
unfolding trim_space
seven_is_filled = refl

reads_activity : parse_int64 "50000" ≡ ok (pos 50_000)
unfolding parse_int64 trim_space
reads_activity = refl

limit_fits : FitsInt64 (limited_deps.cfg.active_timeout *ℤ pos 1000)
unfolding ◌*ℤ◌
limit_fits = omega arith

elapsed_fits : FitsInt64 (limited_deps.now_ms -ℤ pos 50_000)
unfolding ◌-ℤ◌
elapsed_fits = omega arith

check_login_activity_example :
    Outcome
      (λ a s.
        (pos 90_000 ≤ℤ pos 50_000 +ℤ limited_deps.cfg.active_timeout *ℤ pos 1000)
        × ((a ≡ "7")
            × (view (pos 0) s (token_key limited_deps.cfg "token-a") ≡ some "7")
            × (view (pos 0) s (last_active_key limited_deps.cfg "token-a")
                ≡ some (show_int (pos 90_000)))))
      (λ _ s.
        (pos 50_000 +ℤ limited_deps.cfg.active_timeout *ℤ pos 1000 <ℤ pos 90_000)
        × (view (pos 0) s (token_key limited_deps.cfg "token-a") ≡ none))
      (check_login limited_deps "token-a" signed_store).0
      (check_login limited_deps "token-a" signed_store).1
check_login_activity_example =
    check_login_activity limited_deps (memory-IsHealthy (λ d. d) (pos 0)) (refl, omega arith) refl
      "token-a" "7" "50000" (pos 50_000) (λ e. false≢true (ap (λ t. t == "") e)) seven_is_filled
      reads_activity limit_fits elapsed_fits signed_store token_is_stored activity_is_stored

parse_int64-show_int_test : parse_int64 (show_int (pos 90_000)) ≡ ok (pos 90_000)
parse_int64-show_int_test = parse_int64-show_int (pos 90_000) (omega arith)
