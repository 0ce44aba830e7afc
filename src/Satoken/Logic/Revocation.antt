-- ===== src/Satoken/Logic/Revocation.antt =====
-- `Logout` of satoken/logic.go: its own token and the other ones.
use acat_go_common.Common.{◌≡◌, ◌≢◌, refl, sym, ap, ◌∙◌, String, Option, none, true, ◌==◌}
use mathlib.Core.Bool.{false≢true}
use acat_go_common.Common.Int.{ℤ}
use acat_go_common.Common.Text.{trim_space}
use acat_go_common.Apperr.{GoError, is, not_found}
use acat_go_common.Exec.{Return, ok, err}
use acat_go_common.Exec.Triple.{
  Outcome, Triple, Keeps, Triple-try, Triple-bind, Triple-if, Triple-pure, Triple-raise,
  Keeps-raise, Keeps-if,
}
use acat_go_common.Satoken.Keys.{token_key, session_key, token_session_key, last_active_key}
use acat_go_common.Satoken.Keys.Separation.{keys_apart, keys_injective}
use acat_go_common.Satoken.Store.Healthy.{IsHealthy}
use acat_go_common.Satoken.Logic.{
  Deps, missing, login_id_by_token, logout_of, close_terminal, logout, check_login,
}
use acat_go_common.Satoken.Logic.Rules.{
  Sees, get-fails, get-missing, delete-returns, delete-Sees, delete-Keeps-none,
}
use acat_go_common.Satoken.Logic.Frame.{
  close_terminal-Keeps, logout_of-Keeps, login_id_by_token-Keeps,
}

missing_is : (e : GoError) → e ≡ missing → is e not_found ≡ true
unfolding is
missing_is e h = rw h

pub Outcome-missing :
    {S A : Type 0} (r : Return A) (s : S)
    → Outcome (λ _ _. ⊥) (λ e _. e ≡ missing) r s
    → r ≡ err missing
Outcome-missing (ok a) s h = absurd h
Outcome-missing (err e) s h = ap err h

outcome_state :
    {S A : Type 0} (P : S → Type 0) (r : Return A) (s : S) → Outcome (λ _. P) (λ _. P) r s → P s
outcome_state P (ok a) s h = h
outcome_state P (err e) s h = h

module _ {S : Type 0} (d : Deps S) {view : S → String → Option String} {Fits : ℤ → Type 0}
    (h : IsHealthy d.store view Fits) where
  -- looking a token up fails only with `ErrNotFound`
  lookup_fails :
      (token : String)
      → Triple (λ _. Unit {0}) (login_id_by_token d token) (λ _ _. Unit) (λ e _. e ≡ missing)
  unfolding login_id_by_token
  lookup_fails token =
      Triple-if (token == "") (λ _. Triple-raise missing (λ s p. refl))
        (λ _. Triple-bind (get-fails h (token_key d.cfg token)) (λ value.
          Triple-if (trim_space value == "") (λ _. Triple-raise missing (λ s p. refl))
            (λ _. Triple-pure value (λ s p. tt))))

  -- and it does fail where the token has no value
  lookup_missing :
      (token : String)
      → Triple
          (Sees view (token_key d.cfg token) none)
          (login_id_by_token d token)
          (λ _ _. ⊥)
          (λ e _. e ≡ missing)
  unfolding login_id_by_token
  lookup_missing token =
      Triple-if (token == "") (λ _. Triple-raise missing (λ s p. refl))
        (λ _.
          Triple-bind (get-missing h (token_key d.cfg token))
            (λ value. record { at = λ s p. absurd p }))

  pub check_missing :
      (token : String)
      → Triple
          (Sees view (token_key d.cfg token) none)
          (check_login d token)
          (λ _ _. ⊥)
          (λ e _. e ≡ missing)
  unfolding check_login
  check_missing token = Triple-bind (lookup_missing token) (λ id. record { at = λ s p. absurd p })

  -- From its deletion on, a key of the token stays without a value.
  module _ (token id j : String) (apart : (x : String) → session_key d.cfg x ≢ j) where
    closes : Keeps (Sees view j none) (close_terminal d token id)
    closes = close_terminal-Keeps d h j none apart token id

    clears_token :
        token_key d.cfg token ≡ j
        → Triple (λ _. Unit) (logout_of d token id) (λ _. Sees view j none) (λ _. Sees view j none)
    unfolding logout_of
    clears_token e =
        Triple-bind (rw (← e) (delete-Sees h (λ _. Unit) _ (token_key d.cfg token))) (λ _.
          Triple-bind (delete-Keeps-none h (last_active_key d.cfg token) j) (λ _.
            Triple-bind (delete-Keeps-none h (token_session_key d.cfg token) j) (λ _. closes)))

    clears_last_active :
        last_active_key d.cfg token ≡ j
        → Triple (λ _. Unit) (logout_of d token id) (λ _. Sees view j none) (λ _. Sees view j none)
    unfolding logout_of
    clears_last_active e = Triple-bind (delete-returns h _ (token_key d.cfg token)) (λ _.
        Triple-bind (rw (← e) (delete-Sees h (λ _. Unit) _ (last_active_key d.cfg token)))
          (λ _. Triple-bind (delete-Keeps-none h (token_session_key d.cfg token) j) (λ _. closes)))

    clears_token_session :
        token_session_key d.cfg token ≡ j
        → Triple (λ _. Unit) (logout_of d token id) (λ _. Sees view j none) (λ _. Sees view j none)
    unfolding logout_of
    clears_token_session e = Triple-bind (delete-returns h _ (token_key d.cfg token)) (λ _.
        Triple-bind (delete-returns h _ (last_active_key d.cfg token)) (λ _.
          Triple-bind (rw (← e) (delete-Sees h (λ _. Unit) _ (token_session_key d.cfg token)))
            (λ _. closes)))

  -- whatever the lookup of the login id says
  logout_leads :
      (token : String) (Q : S → Type 0)
      → ((id : String) → Triple (λ _. Unit) (logout_of d token id) (λ _. Q) (λ _. Q))
      → Triple (λ _. Unit) (logout d token) (λ _. Q) (λ _. Q)
  unfolding logout
  logout_leads token Q each = Triple-try (lookup_fails token) each (λ e.
      Triple-if (is e not_found) (λ _. record { at = λ s p. (each "").at s tt })
        (λ n. record { at = λ s p. absurd (false≢true (sym n ∙ missing_is e p)) }))

  pub logout_clears :
      (token : String)
      → Triple
          (λ _. Unit)
          (logout d token)
          (λ _. Sees view (token_key d.cfg token) none)
          (λ _. Sees view (token_key d.cfg token) none)
  logout_clears token =
      logout_leads token (Sees view (token_key d.cfg token) none)
        (λ id. clears_token token id _ (λ x e. (keys_apart d.cfg token x).0 (sym e)) refl)

  state_after :
      (token : String) (Q : S → Type 0)
      → Triple (λ _. Unit) (logout d token) (λ _. Q) (λ _. Q)
      → (s : S) → Q (logout d token s).1
  state_after token Q t s = outcome_state Q (logout d token s).0 (logout d token s).1 (t.at s tt)

  -- Over a healthy store, which answers every call as its contract says, the token has no login id,
  -- no activity time and no token session after a `Logout`, and `CheckLogin` answers `ErrNotFound`;
  -- so it is even where `Logout` returns an error, as it does for a stored session that cannot be
  -- decoded. A store that fails is not covered.
  pub logout_revokes :
      (token : String) (s : S)
      → (view (logout d token s).1 (token_key d.cfg token) ≡ none)
        × (view (logout d token s).1 (last_active_key d.cfg token) ≡ none)
        × (view (logout d token s).1 (token_session_key d.cfg token) ≡ none)
        × ((check_login d token (logout d token s).1).0 ≡ err missing)
  logout_revokes token s =
      let gone =
        state_after token (Sees view (token_key d.cfg token) none) (logout_clears token) s in
      (
        gone,
        state_after token (Sees view (last_active_key d.cfg token) none)
            (logout_leads token _
              (λ id. clears_last_active token id _ (λ x. (keys_apart d.cfg x token).4) refl))
            s,
        state_after token (Sees view (token_session_key d.cfg token) none)
            (logout_leads token _
              (λ id. clears_token_session token id _ (λ x. (keys_apart d.cfg x token).3) refl))
            s,
        Outcome-missing _ _ ((check_missing token).at _ gone),
      )

  -- `Logout` of one token leaves the login id of every other token as it was.
  pub logout_keeps_others :
      (token other : String) (s : S)
      → token ≢ other
      → view (logout d token s).1 (token_key d.cfg other) ≡ view s (token_key d.cfg other)
  unfolding logout
  logout_keeps_others token other s n =
      let j = token_key d.cfg other in
      let o = view s j in
      let each = λ (id : String).
        logout_of-Keeps d h j o (λ x e. (keys_apart d.cfg other x).0 (sym e)) token id
          (λ e. n ((keys_injective d.cfg token other).0 e))
          (λ e. (keys_apart d.cfg other token).2 (sym e))
          (λ e. (keys_apart d.cfg other token).1 (sym e)) in
      outcome_state (Sees view j o) (logout d token s).0 (logout d token s).1 (
        (Triple-try (login_id_by_token-Keeps d h j o token) each
            (λ e. Keeps-if (is e not_found) (each "") (Keeps-raise e))).at
          s refl)
