-- ===== src/Satoken/Logic/Acceptance.antt =====
-- `Login` of satoken/logic.go, followed by `CheckLogin` of the token that it returned.
use acat_go_common.Common.{arith, eq_iff, ◌≡◌, ◌≢◌, sym, ap, ◌∙◌, String, Option, some, false, ◌==◌}
use mathlib.Core.Path.{subst}
use mathlib.Core.Bool.{false≢true}
use acat_go_common.Common.Int.{ℤ, pos, ltb_ℤ}
use acat_go_common.Common.Text.{trim_space}
use acat_go_common.Apperr.{GoError, is, not_found}
use acat_go_common.Exec.{Return, ok, lift}
use acat_go_common.Exec.Triple.{
  Triple-weaken, Triple-fact, Outcome, Triple, Keeps, Triple-try, Triple-bind, Triple-if,
  Triple-pure, Triple-raise,
}
use acat_go_common.Satoken.Token.{new_token_value}
use acat_go_common.Satoken.Keys.{token_key, session_key}
use acat_go_common.Satoken.Keys.Separation.{keys_apart}
use acat_go_common.Satoken.Store.Healthy.{IsHealthy}
use acat_go_common.Satoken.Logic.{
  Deps, set_last_active_to_now, save_session_for, get_session_by_login_id, token_value_by_login_id,
  login_id_by_token, renew, signed_in, login_fresh, login_shared, login, check_login,
}
use acat_go_common.Satoken.Logic.Rules.{
  Outcome-value, get-found, Sees, anything, set-Sees, forget_errors,
}
use acat_go_common.Satoken.Logic.Frame.{
  unless_missing-Keeps, get_session_by_id-Keeps, set_last_active-Keeps, save_session_for-Keeps,
}

pub outcome_returned :
    {S A : Type 0} (Q : A → S → Type 0) (E : GoError → S → Type 0) (r : Return A) (a : A) (s : S)
    → r ≡ ok a
    → Outcome Q E r s
    → Q a s
outcome_returned Q E r a s e o = subst (λ x. Outcome Q E x s) e o

module _ {S : Type 0} (d : Deps S) {view : S → String → Option String} {Fits : ℤ → Type 0}
    (h : IsHealthy d.store view Fits) (fits : Fits d.cfg.timeout) (id : String) where
  abbrev Maps : String → S → Type 0
  Maps token = Sees view (token_key d.cfg token) (some id)

  session_apart : (token x : String) → session_key d.cfg x ≢ token_key d.cfg token
  session_apart token x e = (keys_apart d.cfg token x).0 (sym e)

  touch-Keeps :
      (token other : String) (o : Option String)
      → Keeps (Sees view (token_key d.cfg other) o) (set_last_active_to_now d token)
  touch-Keeps token other o =
      set_last_active-Keeps d h (token_key d.cfg other) o token
        (λ e. (keys_apart d.cfg other token).2 (sym e))

  renew-Maps :
      (token : String)
      → Triple (λ _. Unit {0}) (renew d token id) (λ _. Maps token) (λ _ _. Unit {0})
  unfolding renew
  renew-Maps token =
      let j = token_key d.cfg token in
      Triple-bind (set-Sees h (λ _. Unit {0}) (λ _ _. Unit {0}) j id d.cfg.timeout fits) (λ _.
        forget_errors (
          Triple-try (get_session_by_id-Keeps d h j (some id) (session_key d.cfg id))
            (λ session.
              Triple-bind
                (save_session_for-Keeps d h j (some id) (session_apart token) session d.cfg.timeout)
                (λ _. touch-Keeps token token (some id)))
            (unless_missing-Keeps d h j (some id) tt)))

  fresh-Maps : Triple (λ _. Unit {0}) (login_fresh d id) Maps (λ _ _. Unit {0})
  unfolding login_fresh
  fresh-Maps =
      Triple-bind (anything (λ _. Unit {0}) (lift (new_token_value d.rng d.cfg.token_style)))
        (λ token. Triple-bind (anything (λ _. Unit {0}) (get_session_by_login_id d id)) (λ session.
          Triple-bind
            (anything (λ _. Unit {0})
              (save_session_for d (signed_in d session id token) d.cfg.timeout))
            (λ _.
              Triple-bind
                (set-Sees h (λ _. Unit {0}) (λ _ _. Unit {0}) (token_key d.cfg token) id
                  d.cfg.timeout fits)
                (λ _.
                  Triple-bind (forget_errors (touch-Keeps token token (some id)))
                    (λ _. Triple-pure token (λ s p. p))))))

  shared-Maps : Triple (λ _. Unit {0}) (login_shared d id) Maps (λ _ _. Unit {0})
  unfolding login_shared
  shared-Maps =
      Triple-if d.cfg.is_share
        (λ _.
          Triple-try (anything (λ _. Unit {0}) (token_value_by_login_id d id))
            (λ existing. Triple-bind (renew-Maps existing) (λ _. Triple-pure existing (λ s p. p)))
            (λ e. Triple-if (is e not_found) (λ _. fresh-Maps) (λ _. Triple-raise e (λ s p. tt))))
        (λ _. fresh-Maps)

  login-Maps : Triple (λ _. Unit {0}) (login d id) Maps (λ _ _. Unit {0})
  unfolding login
  login-Maps =
      Triple-if (trim_space id == "") (λ _. Triple-raise _ (λ s p. tt))
        (λ _. Triple-bind (anything (λ _. Unit {0}) _) (λ _. shared-Maps))

  -- looking up a token that stands for the login id
  pub lookup_found :
      (token : String)
      → token ≢ ""
      → (trim_space id == "") ≡ false
      → Triple (Maps token) (login_id_by_token d token) (λ a s. (a ≡ id) × Maps token s) (λ _ _. ⊥)
  unfolding login_id_by_token
  lookup_found token some_token some_id =
      Triple-if (token == "") (λ b. absurd (some_token (ground (arith, eq_iff token "", b))))
        (λ _. Triple-bind (get-found h _ (token_key d.cfg token) id) (λ value. Triple-fact (λ e.
          Triple-if (trim_space value == "")
            (λ b. absurd (false≢true (sym some_id ∙ ap (λ x. trim_space x == "") (sym e) ∙ b)))
            (λ _. Triple-pure value (λ s p. (e, p))))))

  check_found :
      (token : String)
      → token ≢ ""
      → (trim_space id == "") ≡ false
      → ltb_ℤ (pos 0) d.cfg.active_timeout ≡ false
      → Triple (Maps token) (check_login d token) (λ a _. a ≡ id) (λ _ _. ⊥)
  unfolding check_login
  check_found token some_token some_id unlimited =
      Triple-bind (lookup_found token some_token some_id) (λ a. Triple-fact (λ e.
        Triple-if _ (λ b. absurd (false≢true (sym unlimited ∙ b))) (λ _. Triple-pure a (λ s p. e))))

  -- only a login id that is not blank gets a token
  login_named :
      Triple (λ _. Unit {0}) (login d id) (λ _ _. (trim_space id == "") ≡ false) (λ _ _. Unit {0})
  unfolding login
  login_named =
      Triple-if (trim_space id == "") (λ _. Triple-raise _ (λ s p. tt))
        (λ n. Triple-weaken (λ s p. p) (λ a s q. n) (λ e s q. q) (anything (λ _. Unit {0}) _))

  -- Where timeouts fit the store and no activity limit is configured, `CheckLogin` of a token that
  -- `Login` returned, and that is not empty, answers the login id of that login.
  pub login_accepted :
      (token : String) (s : S)
      → (login d id s).0 ≡ ok token
      → token ≢ ""
      → ltb_ℤ (pos 0) d.cfg.active_timeout ≡ false
      → (check_login d token (login d id s).1).0 ≡ ok id
  login_accepted token s e some_token unlimited = Outcome-value _ id _ (
      (check_found token some_token
          (outcome_returned _ (λ _ _. Unit {0}) _ token _ e (login_named.at s tt)) unlimited).at
        (login d id s).1 (outcome_returned Maps (λ _ _. Unit {0}) _ token _ e (login-Maps.at s tt)))
