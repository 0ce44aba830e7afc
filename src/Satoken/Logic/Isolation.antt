-- ===== src/Satoken/Logic/Isolation.antt =====
-- `Login` of satoken/logic.go where logins are concurrent, and the tokens of other logins.
use acat_go_common.Common.{◌≡◌, ◌≢◌, refl, sym, ◌∙◌, String, Option, true, ◌==◌}
use mathlib.Core.Bool.{false≢true}
use acat_go_common.Common.Int.{ℤ}
use acat_go_common.Common.Text.{trim_space}
use acat_go_common.Apperr.{is, not_found}
use acat_go_common.Exec.{Exec, ok}
use acat_go_common.Exec.Triple.{
  Triple, Keeps, Triple-try, Triple-bind, Triple-if, Triple-pure, Triple-raise, Triple-weaken,
  Keeps-pure, Keeps-lift,
}
use acat_go_common.Satoken.Token.{new_token_value}
use acat_go_common.Satoken.Keys.{token_key, session_key}
use acat_go_common.Satoken.Keys.Separation.{keys_apart, keys_injective}
use acat_go_common.Satoken.Store.Healthy.{IsHealthy}
use acat_go_common.Satoken.Logic.{
  Deps, set_last_active_to_now, save_session_for, renew, signed_in, login_fresh, login_shared,
  login,
}
use acat_go_common.Satoken.Logic.Rules.{Sees, Keeps-premise, forget_errors, set-Sees_premise}
use acat_go_common.Satoken.Logic.Frame.{
  unless_missing-Keeps, get_session_by_id-Keeps, get_session_by_login_id-Keeps,
  set_last_active-Keeps, save_session_for-Keeps, token_value_by_login_id-Keeps,
}
use acat_go_common.Satoken.Logic.Acceptance.{outcome_returned}

module _ {S : Type 0} (d : Deps S) {view : S → String → Option String} {Fits : ℤ → Type 0}
    (h : IsHealthy d.store view Fits) (other : String) (o : Option String) where
  abbrev pub j : String
  j = token_key d.cfg other

  abbrev pub Kept : S → Type 0
  Kept = Sees view j o

  -- kept, unless the token is the other one itself
  abbrev pub Beside : String → S → Type 0
  Beside token s = token ≢ other → Kept s

  touch-Keeps : (token : String) → Keeps Kept (set_last_active_to_now d token)
  touch-Keeps token =
      set_last_active-Keeps d h j o token (λ e. (keys_apart d.cfg other token).2 (sym e))

  pub save-Keeps : (session : _) → Keeps Kept (save_session_for d session d.cfg.timeout)
  save-Keeps session =
      save_session_for-Keeps d h j o (λ x e. (keys_apart d.cfg other x).0 (sym e)) session
        d.cfg.timeout

  write-Beside :
      (token id : String)
      → Triple Kept
          (d.store.set (token_key d.cfg token) id d.cfg.timeout)
          (λ _. Beside token)
          (λ _ _. Unit {0})
  write-Beside token id =
      Triple-weaken (λ s p. p) (λ a s q n. q (λ e. n ((keys_injective d.cfg token other).0 e)))
        (λ e s q. q) (set-Sees_premise h (token_key d.cfg token) j id d.cfg.timeout o)

  beside :
      {A : Type 0} (token : String) {m : Exec S A}
      → Keeps Kept m
      → Triple (Beside token) m (λ _. Beside token) (λ _ _. Unit {0})
  beside token k = Keeps-premise (token ≢ other) k

  renew-Beside :
      (token id : String) → Triple Kept (renew d token id) (λ _. Beside token) (λ _ _. Unit {0})
  unfolding renew
  renew-Beside token id = Triple-bind (write-Beside token id) (λ _. beside token (
      Triple-try (get_session_by_id-Keeps d h j o (session_key d.cfg id))
        (λ session. Triple-bind (save-Keeps session) (λ _. touch-Keeps token))
        (unless_missing-Keeps d h j o tt)))

  fresh-Beside : (id : String) → Triple Kept (login_fresh d id) Beside (λ _ _. Unit {0})
  unfolding login_fresh
  fresh-Beside id =
      Triple-bind (forget_errors (Keeps-lift (new_token_value d.rng d.cfg.token_style))) (λ token.
        Triple-bind (forget_errors (get_session_by_login_id-Keeps d h j o id)) (λ session.
          Triple-bind (forget_errors (save-Keeps (signed_in d session id token))) (λ _.
            Triple-bind (write-Beside token id) (λ _.
              Triple-bind (beside token (touch-Keeps token)) (λ _. Triple-pure token (λ s p. p))))))

  pub shared-Beside : (id : String) → Triple Kept (login_shared d id) Beside (λ _ _. Unit {0})
  unfolding login_shared
  shared-Beside id =
      Triple-if d.cfg.is_share
        (λ _.
          Triple-try (token_value_by_login_id-Keeps d h j o id)
            (λ existing.
              Triple-bind (renew-Beside existing id) (λ _. Triple-pure existing (λ s p. p)))
            (λ e.
              Triple-if (is e not_found) (λ _. fresh-Beside id) (λ _. Triple-raise e (λ s p. tt))))
        (λ _. fresh-Beside id)

  login-Beside :
      (id : String) → d.cfg.is_concurrent ≡ true → Triple Kept (login d id) Beside (λ _ _. Unit {0})
  unfolding login
  login-Beside id concurrent =
      Triple-if (trim_space id == "") (λ _. Triple-raise _ (λ s p. tt))
        (λ _.
          Triple-bind
            (Triple-if d.cfg.is_concurrent (λ _. forget_errors (Keeps-pure tt))
              (λ exclusive. absurd (false≢true (sym exclusive ∙ concurrent))))
            (λ _. shared-Beside id))

-- Where logins are concurrent, a `Login` that returns a token leaves every other token as it was:
-- standing for the same login id, or for none.
pub login_keeps_others :
    {S : Type 0} (d : Deps S) {view : S → String → Option String} {Fits : ℤ → Type 0}
    → IsHealthy d.store view Fits
    → (id token other : String) (s : S) → d.cfg.is_concurrent ≡ true
    → (login d id s).0 ≡ ok token
    → token ≢ other
    → view (login d id s).1 (token_key d.cfg other) ≡ view s (token_key d.cfg other)
login_keeps_others d {view} h id token other s concurrent returned n =
    let o = view s (token_key d.cfg other) in
    outcome_returned (Beside d h other o) (λ _ _. Unit {0}) _ token _ returned
      ((login-Beside d h other o id concurrent).at s refl) n
