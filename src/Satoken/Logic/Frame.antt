-- ===== src/Satoken/Logic/Frame.antt =====
-- What the helpers of satoken/logic.go leave alone: a key that is no session key.
use acat_go_common.Common.{◌≢◌, String, Option, List, [], ◌∷◌}
use acat_go_common.Common.Int.{ℤ}
use acat_go_common.Apperr.{GoError, is, not_found}
use acat_go_common.Exec.Triple.{
  Keeps, Triple-try, Triple-bind, Keeps-pure, Keeps-raise, Keeps-lift, Keeps-if,
}
use acat_go_common.Satoken.Session.{Session, TerminalInfo}
use acat_go_common.Satoken.Keys.{token_key, session_key, token_session_key, last_active_key}
use acat_go_common.Satoken.Store.Healthy.{IsHealthy}
use acat_go_common.Satoken.Logic.{
  Deps, unless_missing, set_last_active_to_now, get_session_by_id, save_session_for,
  get_session_by_login_id, token_value_by_login_id, login_id_by_token, logout_of, store_left,
  close_terminal, missing, first_token,
}
use acat_go_common.Satoken.Logic.Rules.{Sees, get-Keeps, set-Keeps_other, delete-Keeps_other}

module _ {S : Type 0} (d : Deps S) {view : S → String → Option String} {Fits : ℤ → Type 0}
    (h : IsHealthy d.store view Fits) (j : String) (o : Option String) where
  pub unless_missing-Keeps :
      {A : Type 0} (a : A) (e : GoError) → Keeps (Sees view j o) (unless_missing d a e)
  unfolding unless_missing
  unless_missing-Keeps a e = Keeps-if (is e not_found) (Keeps-pure a) (Keeps-raise e)

  pub get_session_by_id-Keeps : (k : String) → Keeps (Sees view j o) (get_session_by_id d k)
  unfolding get_session_by_id
  get_session_by_id-Keeps k =
      Triple-bind (get-Keeps h k j o) (λ raw. Keeps-lift (d.unmarshal_session raw))

  pub get_session_by_login_id-Keeps :
      (id : String) → Keeps (Sees view j o) (get_session_by_login_id d id)
  unfolding get_session_by_login_id
  get_session_by_login_id-Keeps id =
      Triple-try (get_session_by_id-Keeps (session_key d.cfg id)) Keeps-pure
        (unless_missing-Keeps _)

  pub set_last_active-Keeps :
      (token : String)
      → last_active_key d.cfg token ≢ j
      → Keeps (Sees view j o) (set_last_active_to_now d token)
  unfolding set_last_active_to_now
  set_last_active-Keeps token n =
      Keeps-if _ (Keeps-pure tt) (set-Keeps_other h (last_active_key d.cfg token) j _ _ o n)

  pub login_id_by_token-Keeps : (token : String) → Keeps (Sees view j o) (login_id_by_token d token)
  unfolding login_id_by_token
  login_id_by_token-Keeps token = Keeps-if _ (Keeps-raise missing) (
      Triple-bind (get-Keeps h (token_key d.cfg token) j o)
        (λ value. Keeps-if _ (Keeps-raise missing) (Keeps-pure value)))

  pub token_value_by_login_id-Keeps :
      (id : String) → Keeps (Sees view j o) (token_value_by_login_id d id)
  unfolding token_value_by_login_id
  token_value_by_login_id-Keeps id =
      Triple-bind (get_session_by_id-Keeps (session_key d.cfg id))
        (λ session. Keeps-lift (first_token session.terminal_list))

-- Operations that write sessions, at a key that is none of a session.
module _ {S : Type 0} (d : Deps S) {view : S → String → Option String} {Fits : ℤ → Type 0}
    (h : IsHealthy d.store view Fits) (j : String) (o : Option String)
    (apart : (id : String) → session_key d.cfg id ≢ j) where
  pub save_session_for-Keeps :
      (session : Session) (timeout : ℤ) → Keeps (Sees view j o) (save_session_for d session timeout)
  unfolding save_session_for
  save_session_for-Keeps session timeout =
      Triple-bind (Keeps-lift (d.marshal_session session))
        (λ payload. set-Keeps_other h _ j payload timeout o (apart _))

  store_left-Keeps :
      (id : String) (left : Session) (ts : List TerminalInfo)
      → Keeps (Sees view j o) (store_left d id left ts)
  unfolding store_left
  store_left-Keeps id left [] = delete-Keeps_other h (session_key d.cfg id) j o (apart id)
  store_left-Keeps id left (t ∷ ts) = save_session_for-Keeps left d.cfg.timeout

  pub close_terminal-Keeps : (token id : String) → Keeps (Sees view j o) (close_terminal d token id)
  unfolding close_terminal
  close_terminal-Keeps token id = Keeps-if _ (Keeps-pure tt) (
      Triple-try (get_session_by_id-Keeps d h j o (session_key d.cfg id))
        (λ session. store_left-Keeps id _ _) (unless_missing-Keeps d h j o tt))

  pub logout_of-Keeps :
      (token id : String)
      → token_key d.cfg token ≢ j
      → last_active_key d.cfg token ≢ j
      → token_session_key d.cfg token ≢ j
      → Keeps (Sees view j o) (logout_of d token id)
  unfolding logout_of
  logout_of-Keeps token id n1 n2 n3 = Triple-bind (delete-Keeps_other h _ j o n1) (λ _.
      Triple-bind (delete-Keeps_other h _ j o n2)
        (λ _. Triple-bind (delete-Keeps_other h _ j o n3) (λ _. close_terminal-Keeps token id)))
