-- ===== src/Satoken/Logic/Kickout.antt =====
-- `Login` of satoken/logic.go where logins are not concurrent, and the tokens of the session before.
use mathlib.Core.Bool.{false≢true, true≢false}
use acat_go_common.Common.{
  ◌≡◌, ◌≢◌, sym, ◌∙◌, String, Option, none, some, true, false, ◌==◌, eq_iff, List, [], ◌∷◌, arith,
  Bool-cases, inl, inr,
}
use acat_go_common.Common.Int.{ℤ}
use acat_go_common.Common.Text.{trim_space}
use acat_go_common.Exec.{ok, err, ◌>>=◌}
use acat_go_common.Exec.Triple.{
  Triple, Keeps, Triple-try, Triple-bind, Triple-if, Triple-raise, Triple-lift, Triple-fact,
  Keeps-pure, Keeps-if,
}
use acat_go_common.Satoken.Session.{Session, TerminalInfo, has_token}
use acat_go_common.Satoken.Keys.{token_key, session_key, last_active_key}
use acat_go_common.Satoken.Store.Healthy.{IsHealthy}
use acat_go_common.Satoken.Logic.{
  Deps, missing, get_session_by_id, save_session_for, drop_terminals, replaced, login, check_login,
}
use acat_go_common.Satoken.Logic.Rules.{
  Sees, get-found, delete-Sees, delete-Keeps-none, anything, forget_errors,
}
use acat_go_common.Satoken.Logic.Revocation.{check_missing, Outcome-missing}
use acat_go_common.Satoken.Logic.Acceptance.{outcome_returned}
use acat_go_common.Satoken.Logic.Isolation.{Beside, shared-Beside, save-Keeps}

module _ {S : Type 0} (d : Deps S) {view : S → String → Option String} {Fits : ℤ → Type 0}
    (h : IsHealthy d.store view Fits) (old : String) (some_old : old ≢ "") where
  abbrev Gone : S → Type 0
  Gone = Sees view (token_key d.cfg old) none

  -- a deletion revokes its own token, and brings none back
  drop-Keeps : (ts : List TerminalInfo) → Keeps Gone (drop_terminals d ts)
  unfolding drop_terminals
  drop-Keeps [] = Keeps-pure tt
  drop-Keeps (t ∷ ts) = Keeps-if (t.token_value == "") (drop-Keeps ts) (
      Triple-bind (delete-Keeps-none h (token_key d.cfg t.token_value) (token_key d.cfg old)) (λ _.
        Triple-bind
          (delete-Keeps-none h (last_active_key d.cfg t.token_value) (token_key d.cfg old))
          (λ _. drop-Keeps ts)))

  drop_first :
      (ts : List TerminalInfo) (token : String)
      → token ≡ old
      → Keeps Gone (drop_terminals d ts)
      → Triple
          (λ _. Unit {0})
          (d.store.delete (token_key d.cfg token) >>= λ _.
            d.store.delete (last_active_key d.cfg token) >>= λ _. drop_terminals d ts)
          (λ _. Gone)
          (λ _ _. Unit {0})
  drop_first ts token e keeps = rw e (
      Triple-bind (delete-Sees h (λ _. Unit {0}) (λ _ _. Unit {0}) (token_key d.cfg old)) (λ _.
        forget_errors (
          Triple-bind (delete-Keeps-none h (last_active_key d.cfg old) (token_key d.cfg old))
            (λ _. keeps))))

  drops :
      (ts : List TerminalInfo)
      → has_token old ts ≡ true
      → Triple (λ _. Unit {0}) (drop_terminals d ts) (λ _. Gone) (λ _ _. Unit {0})
  unfolding drop_terminals
  drops [] listed = absurd (false≢true listed)
  drops (t ∷ ts) listed = elim (Bool-cases (t.token_value == old)) [
    | inl same ↦
        let e : t.token_value ≡ old = ground (arith, eq_iff t.token_value old, same) in
        Triple-if (t.token_value == "")
          (λ b. absurd (some_old (sym e ∙ ground (arith, eq_iff t.token_value "", b))))
          (λ _. drop_first ts t.token_value e (drop-Keeps ts))
    | inr other ↦
        let rest : Triple (λ _. Unit {0}) (drop_terminals d ts) (λ _. Gone) (λ _ _. Unit {0}) =
          drops ts (ground (arith, listed, other)) in
        Triple-if (t.token_value == "") (λ _. rest)
          (λ _.
            Triple-bind (anything (λ _. Unit {0}) _)
              (λ _. Triple-bind (anything (λ _. Unit {0}) _) (λ _. rest)))
  ]

  dropped_and_saved :
      (session : Session)
      → has_token old session.terminal_list ≡ true
      → Triple
          (λ _. Unit {0})
          (drop_terminals d session.terminal_list >>= λ _.
            save_session_for d (record session { terminal_list = [] }) d.cfg.timeout)
          (λ _. Gone)
          (λ _ _. Unit {0})
  dropped_and_saved session listed =
      Triple-bind (drops session.terminal_list listed)
        (λ _. forget_errors (save-Keeps d h old none (record session { terminal_list = [] })))

  -- the terminals of the session that is read are dropped
  replaces :
      (id raw : String) (session : Session)
      → d.unmarshal_session raw ≡ ok session
      → has_token old session.terminal_list ≡ true
      → Triple
          (Sees view (session_key d.cfg id) (some raw))
          (replaced d id)
          (λ _. Gone)
          (λ _ _. Unit {0})
  unfolding replaced get_session_by_id
  replaces id raw session decodes listed =
      Triple-try {R = λ x _. (x ≡ session) × Unit {0}} {F = λ _ _. ⊥}
        (Triple-bind (get-found h (λ _ _. ⊥) (session_key d.cfg id) raw) (λ a. Triple-fact (λ e.
          rw (e, decodes) (Triple-lift (ok session) (λ x q s p. (cc q, tt)) (λ x q s p. cc q)))))
        (λ x. Triple-fact (λ e. rw e (dropped_and_saved session listed)))
        (λ e. record { at = λ s p. absurd p })

  kicks :
      (id raw : String) (session : Session)
      → d.cfg.is_concurrent ≡ false
      → d.unmarshal_session raw ≡ ok session
      → has_token old session.terminal_list ≡ true
      → Triple
          (Sees view (session_key d.cfg id) (some raw))
          (login d id)
          (Beside d h old none)
          (λ _ _. Unit {0})
  unfolding login
  kicks id raw session exclusive decodes listed =
      Triple-if (trim_space id == "") (λ _. Triple-raise _ (λ s p. tt))
        (λ _.
          Triple-bind
            (Triple-if d.cfg.is_concurrent
              (λ concurrent. absurd (true≢false (sym concurrent ∙ exclusive)))
              (λ _. replaces id raw session decodes listed))
            (λ _. shared-Beside d h old none id))

  -- Where logins are not concurrent, a `Login` that returns a token has revoked every other token,
  -- not empty, of the session that was stored for the login id: it stands for no login id any more
  -- and `CheckLogin` answers `ErrNotFound`.
  pub login_kicks_out :
      (id raw token : String) (session : Session) (s : S)
      → d.cfg.is_concurrent ≡ false
      → view s (session_key d.cfg id) ≡ some raw
      → d.unmarshal_session raw ≡ ok session
      → has_token old session.terminal_list ≡ true
      → (login d id s).0 ≡ ok token
      → token ≢ old
      → (view (login d id s).1 (token_key d.cfg old) ≡ none)
        × ((check_login d old (login d id s).1).0 ≡ err missing)
  login_kicks_out id raw token session s exclusive stored decodes listed returned n =
      let gone : Gone (login d id s).1 =
        outcome_returned (Beside d h old none) (λ _ _. Unit {0}) _ token _ returned
          ((kicks id raw session exclusive decodes listed).at s stored) n in
      (gone, Outcome-missing _ _ ((check_missing d h old).at _ gone))
