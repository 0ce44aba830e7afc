-- ===== src/Satoken/Logic/Stored.antt =====
-- `SaveSession` of satoken/logic.go, followed by `GetSession` of the same login id.
use acat_go_common.Common.{◌≡◌, ap, sym, String, Option, some, ◌==◌, if◌then◌else◌}
use mathlib.Core.Path.{subst}
use acat_go_common.Common.Int.{ℤ}
use acat_go_common.Exec.{Return, ok, err, lift}
use acat_go_common.Exec.Triple.{
  Outcome, Triple, Triple-bind, Triple-try, Triple-pure, Triple-lift, Triple-fact,
}
use acat_go_common.Satoken.Session.{Session}
use acat_go_common.Satoken.Keys.{session_key}
use acat_go_common.Satoken.Store.Healthy.{IsHealthy}
use acat_go_common.Satoken.Logic.{
  Deps, login_id_of, get_session_by_id, save_session_for, get_session, save_session,
}
use acat_go_common.Satoken.Logic.Rules.{Sees, Outcome-value, set-Sees, get-found}

-- `SaveSession` fills in what is empty
abbrev pub completed : {S : Type 0} → Deps S → Session → Session
completed d s = record s {
  id = if s.id == "" then d.new_session_id else s.id;
  login_type = if s.login_type == "" then d.cfg.login_type else s.login_type;
  type = if s.type == "" then "Account-Session" else s.type;
}

lift_ok :
    {S A : Type 0} (P : S → Type 0) (r : Return A) (a : A)
    → r ≡ ok a
    → Triple P (lift r) (λ x s. (x ≡ a) × P s) (λ _ _. ⊥)
lift_ok P r a e = Triple-lift r (λ b q s p. (cc (q, e), p)) (λ b q s p. cc (q, e))

outcome_done :
    {S A : Type 0} (P : S → Type 0) (r : Return A) (s : S) → Outcome (λ _. P) (λ _ _. ⊥) r s → P s
outcome_done P (ok a) s p = p
outcome_done P (err e) s p = absurd p

module _ {S : Type 0} (d : Deps S) {view : S → String → Option String} {Fits : ℤ → Type 0}
    (h : IsHealthy d.store view Fits) (fits : Fits d.cfg.timeout) (session : Session)
    (payload : String) (read : Session)
    (printed : d.marshal_session (completed d session) ≡ ok payload)
    (parsed : d.unmarshal_session payload ≡ ok read) where
  abbrev key : String
  key = session_key d.cfg (login_id_of d.format_value session)

  save_session-Sees :
      Triple (λ _. Unit {0}) (save_session d session) (λ _. Sees view key (some payload)) (λ _ _. ⊥)
  unfolding save_session save_session_for login_id_of
  save_session-Sees = Triple-bind (lift_ok (λ _. Unit {0}) _ payload printed) (λ p.
      Triple-fact (λ e.
        subst
          (λ x.
            Triple (λ _. Unit {0}) (d.store.set key x d.cfg.timeout)
              (λ _. Sees view key (some payload)) (λ _ _. ⊥))
          (sym e) (set-Sees h (λ _. Unit {0}) (λ _ _. ⊥) key payload d.cfg.timeout fits)))

  get_session-read :
      Triple
        (Sees view key (some payload))
        (get_session d (login_id_of d.format_value session))
        (λ a _. a ≡ some read)
        (λ _ _. ⊥)
  unfolding get_session get_session_by_id
  get_session-read =
      Triple-try {R = λ x _. x ≡ read} {F = λ _ _. ⊥}
        (Triple-bind (get-found h (λ _ _. ⊥) key payload) (λ raw. Triple-fact (λ e.
          Triple-lift (d.unmarshal_session raw) (λ b q s p. cc (q, parsed, e))
            (λ b q s p. cc (q, parsed, e)))))
        (λ s. Triple-pure (some s) (λ st q. ap some q)) (λ e. record { at = λ s p. absurd p })

  -- A session that is saved is the one that is read.
  pub get_session-save_session :
      (s : S)
      → (get_session d (login_id_of d.format_value session) (save_session d session s).1).0
        ≡ ok (some read)
  get_session-save_session s = Outcome-value _ (some read) _ (
      get_session-read.at (save_session d session s).1
        (outcome_done (Sees view key (some payload)) _ _ (save_session-Sees.at s tt)))
