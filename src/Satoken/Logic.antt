-- ===== src/Satoken/Logic.antt =====
-- satoken/logic.go: logging in and out and checking tokens, over a store. The JSON codec, the
-- random sources and the clock are fields of `Deps`; an operation reads the clock once.
pub mod Number
mod Rules
mod Frame
pub mod Revocation
pub mod Acceptance
pub mod Kickout
pub mod Isolation
pub mod Activity
pub mod Stored
mod Tests
use Number.{parse_int64}
use acat_go_common.Common.{
  String, Bool, true, false, Option, none, some, List, [], ◌∷◌, ◌==◌, if◌then◌else◌, contains,
}
use acat_go_common.Common.Int.{ℤ, pos, ◌-ℤ◌, ◌*ℤ◌, ltb_ℤ, leb_ℤ, wrap64}
use acat_go_common.Common.Text.{trim_space, show_int}
use acat_go_common.Apperr.{GoError, sentinel, not_found, plain, is}
use acat_go_common.Exec.{Return, Exec, ok, err, pure, raise, lift, try, ◌>>=◌, ◌>>◌}
use acat_go_common.Satoken.Value.{Value, null, str}
use acat_go_common.Satoken.Session.{
  Session, TerminalInfo, add_terminal, remove_terminal, new_session, string_list,
}
use acat_go_common.Satoken.Keys.{Config, token_key, session_key, token_session_key, last_active_key}
use acat_go_common.Satoken.Store.{Store}
use acat_go_common.Satoken.Token.{Rng, new_token_value}

-- What the operations are given: the store, the codec of session_codec.go, `%v` of a login id that
-- is no text, the configuration, the clock in milliseconds, and the random sources.
pub record Deps (S : Type 0) : Type 0 where
  pub store : Store S
  pub marshal_session : Session → Return String
  pub unmarshal_session : String → Return Session
  pub format_value : Value → String
  pub cfg : Config
  pub now_ms : ℤ
  pub rng : Rng
  pub new_session_id : String

abbrev pub missing : GoError
missing = sentinel not_found

abbrev pub no_login_id : String
no_login_id = "satoken: loginId 不能为空"

-- `loginIDOf` of a session that is there
unfoldable pub login_id_of : (Value → String) → Session → String
login_id_of format s = elim s.login_id [ str v ↦ v | null ↦ "" | v ↦ format v ]

-- the first token of the list that is not empty
unfoldable pub first_token : List TerminalInfo → Return String
first_token [] = err missing
first_token (t ∷ ts) =
    let rest = first_token ts in if t.token_value == "" then rest else ok t.token_value

-- `CheckPermission` and `CheckRole`; `none` is a nil session.
unfoldable pub has_entry : String → Option Session → String → Bool
unfolding string_list
has_entry key none code = false
has_entry key (some s) code = if code == "" then false else contains (string_list s key) code

unfoldable pub check_permission : Option Session → String → Bool
unfolding has_entry
check_permission session code = has_entry "permissions" session code

unfoldable pub check_role : Option Session → String → Bool
unfolding has_entry
check_role session role = has_entry "roles" session role

module _ {S : Type 0} (d : Deps S) where
  -- `if errors.Is(err, ErrNotFound) { return nil }; return err`
  pub unless_missing : {A : Type 0} → A → GoError → Exec S A
  unless_missing a e = if is e not_found then pure a else raise e

  pub set_last_active_to_now : String → Exec S (Unit {0})
  set_last_active_to_now token =
      if leb_ℤ d.cfg.active_timeout (pos 0)
      then pure tt
      else d.store.set (last_active_key d.cfg token) (show_int d.now_ms) d.cfg.timeout

  -- The data map of a decoded session is never nil.
  pub get_session_by_id : String → Exec S Session
  get_session_by_id key = do raw ← d.store.get key; lift (d.unmarshal_session raw)

  pub save_session_for : Session → ℤ → Exec S (Unit {0})
  save_session_for session timeout = do
    payload ← lift (d.marshal_session session)
    d.store.set (session_key d.cfg (login_id_of d.format_value session)) payload timeout

  -- with `create` true
  pub get_session_by_login_id : String → Exec S Session
  get_session_by_login_id login_id =
      try (get_session_by_id (session_key d.cfg login_id)) pure
        (unless_missing (new_session d.new_session_id))

  pub token_value_by_login_id : String → Exec S String
  token_value_by_login_id login_id = do
    session ← get_session_by_id (session_key d.cfg login_id)
    lift (first_token session.terminal_list)

  pub login_id_by_token : String → Exec S String
  login_id_by_token token = if token == "" then raise missing else do
    value ← d.store.get (token_key d.cfg token)
    if trim_space value == "" then raise missing else pure value

  -- the loop of `replaced`
  pub drop_terminals : List TerminalInfo → Exec S (Unit {0})
  drop_terminals [] = pure tt
  drop_terminals (t ∷ ts) =
      let rest = drop_terminals ts in
      if t.token_value == "" then rest else do
        d.store.delete (token_key d.cfg t.token_value)
        d.store.delete (last_active_key d.cfg t.token_value)
        rest

  pub replaced : String → Exec S (Unit {0})
  replaced login_id =
      try (get_session_by_id (session_key d.cfg login_id))
        (λ session. do
          drop_terminals session.terminal_list
          save_session_for (record session { terminal_list = [] }) d.cfg.timeout)
        (unless_missing tt)

  pub renew : String → String → Exec S (Unit {0})
  renew token login_id = do
    d.store.set (token_key d.cfg token) login_id d.cfg.timeout
    try (get_session_by_id (session_key d.cfg login_id))
        (λ session. do save_session_for session d.cfg.timeout; set_last_active_to_now token)
        (unless_missing tt)

  pub new_terminal : String → TerminalInfo
  new_terminal token = record {
    index = pos 0;
    token_value = token;
    device_type = "";
    device_id = "";
    extra = [];
    create_time = d.now_ms;
  }

  -- the session that a login stores
  pub signed_in : Session → String → String → Session
  signed_in session login_id token =
      add_terminal
        (record session {
          type = "Account-Session";
          login_type = d.cfg.login_type;
          login_id = str login_id;
        })
        (new_terminal token)

  -- `Login` behind the reuse of a token
  pub login_fresh : String → Exec S String
  login_fresh login_id = do
    token ← lift (new_token_value d.rng d.cfg.token_style)
    session ← get_session_by_login_id login_id
    save_session_for (signed_in session login_id token) d.cfg.timeout
    d.store.set (token_key d.cfg token) login_id d.cfg.timeout
    set_last_active_to_now token
    pure token

  -- `Login` from the test of `IsShare`; a token that is found is not empty.
  pub login_shared : String → Exec S String
  login_shared login_id =
      if d.cfg.is_share
      then try (token_value_by_login_id login_id)
          (λ existing. do renew existing login_id; pure existing)
          (λ e. if is e not_found then login_fresh login_id else raise e)
      else login_fresh login_id

  pub login : String → Exec S String
  login login_id =
      if trim_space login_id == ""
      then raise (plain no_login_id)
      else do (if d.cfg.is_concurrent then pure tt else replaced login_id); login_shared login_id

  -- `Logout` once the terminal is out of the session
  pub store_left : String → Session → List TerminalInfo → Exec S (Unit {0})
  store_left login_id left [] = d.store.delete (session_key d.cfg login_id)
  store_left login_id left (t ∷ ts) = save_session_for left d.cfg.timeout

  pub close_terminal : String → String → Exec S (Unit {0})
  close_terminal token login_id =
      if login_id == ""
      then pure tt
      else try (get_session_by_id (session_key d.cfg login_id))
          (λ session.
            let left = remove_terminal session token in store_left login_id left left.terminal_list)
          (unless_missing tt)

  -- `Logout` behind the lookup of the login id
  pub logout_of : String → String → Exec S (Unit {0})
  logout_of token login_id = do
    d.store.delete (token_key d.cfg token)
    d.store.delete (last_active_key d.cfg token)
    d.store.delete (token_session_key d.cfg token)
    close_terminal token login_id

  pub logout : String → Exec S (Unit {0})
  logout token =
      try (login_id_by_token token) (logout_of token)
        (λ e. if is e not_found then logout_of token "" else raise e)

  -- Is the time since the last activity, in milliseconds, over the limit?
  pub is_idle : ℤ → Bool
  is_idle last = ltb_ℤ (wrap64 (d.cfg.active_timeout *ℤ pos 1000)) (wrap64 (d.now_ms -ℤ last))

  pub touch : String → String → Exec S String
  touch token login_id = do set_last_active_to_now token; pure login_id

  -- the value of the last-active key, read
  pub check_active : String → String → String → Exec S String
  check_active token login_id last = elim (parse_int64 last) [
    | ok seconds ↦
        if is_idle seconds then (do logout token; raise missing) else touch token login_id
    | err e ↦ touch token login_id
  ]

  -- `CheckLogin` where there is an activity limit
  pub watch : String → String → Exec S String
  watch token login_id =
      try (d.store.get (last_active_key d.cfg token))
        (λ last.
          if trim_space last == "" then touch token login_id else check_active token login_id last)
        (λ e. touch token login_id)

  pub check_login : String → Exec S String
  check_login token = do
    login_id ← login_id_by_token token
    if ltb_ℤ (pos 0) d.cfg.active_timeout then watch token login_id else pure login_id

  -- `none` is the nil session
  pub get_session : String → Exec S (Option Session)
  get_session login_id =
      try (get_session_by_id (session_key d.cfg login_id)) (λ session. pure (some session))
        (unless_missing none)

  -- `SaveSession` of a session that is there
  pub save_session : Session → Exec S (Unit {0})
  save_session session =
      save_session_for
        (record session {
          id = if session.id == "" then d.new_session_id else session.id;
          login_type = if session.login_type == "" then d.cfg.login_type else session.login_type;
          type = if session.type == "" then "Account-Session" else session.type;
        })
        d.cfg.timeout
