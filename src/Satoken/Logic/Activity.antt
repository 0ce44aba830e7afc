-- ===== src/Satoken/Logic/Activity.antt =====
-- `CheckLogin` of satoken/logic.go with an activity limit.
use mathlib.Core.Bool.{false≢true}
use acat_go_common.Common.{
  ◌≡◌, ◌≢◌, refl, sym, ◌∙◌, String, Option, none, some, true, false, ◌==◌, arith, Bool-cases, inl,
  inr,
}
use acat_go_common.Common.Int.{
  ℤ, pos, negsuc, ltb_ℤ, leb_ℤ, ◌+ℤ◌, ◌-ℤ◌, ◌*ℤ◌, ◌<ℤ◌, ◌≤ℤ◌, wrap64, wrap64_in_range,
}
use acat_go_common.Common.Text.{trim_space, show_int}
use acat_go_common.Apperr.{GoError}
use acat_go_common.Exec.{ok}
use acat_go_common.Exec.Triple.{
  Outcome, Triple, Triple-try, Triple-bind, Triple-if, Triple-pure, Triple-raise, Triple-weaken,
  Triple-beside, Triple-fact,
}
use acat_go_common.Satoken.Keys.{token_key, last_active_key}
use acat_go_common.Satoken.Keys.Separation.{keys_apart}
use acat_go_common.Satoken.Store.Healthy.{IsHealthy}
use acat_go_common.Satoken.Logic.{
  Deps, missing, set_last_active_to_now, is_idle, touch, check_active, watch, check_login,
}
use acat_go_common.Satoken.Logic.Number.{parse_int64}
use acat_go_common.Satoken.Logic.Number.RoundTrip.{FitsInt64, read_is_filled}
use acat_go_common.Satoken.Logic.Rules.{Sees, get-Keeps, get-found, set-Sees, set-Keeps_other}
use acat_go_common.Satoken.Logic.Frame.{login_id_by_token-Keeps}
use acat_go_common.Satoken.Logic.Revocation.{logout_clears}
use acat_go_common.Satoken.Logic.Acceptance.{lookup_found}

-- `a - b > c` is `b + c < a`
later : (a b c : ℤ) → ltb_ℤ c (a -ℤ b) ≡ ltb_ℤ (b +ℤ c) a
unfolding ◌+ℤ◌ ◌-ℤ◌
later (pos a) (pos b) (pos c) = ground arith
later (pos a) (pos b) (negsuc c) = ground arith
later (pos a) (negsuc b) (pos c) = ground arith
later (pos a) (negsuc b) (negsuc c) = ground arith
later (negsuc a) (pos b) (pos c) = ground arith
later (negsuc a) (pos b) (negsuc c) = ground arith
later (negsuc a) (negsuc b) (pos c) = ground arith
later (negsuc a) (negsuc b) (negsuc c) = ground arith

wrap64-fits : (a : ℤ) → FitsInt64 a → wrap64 a ≡ a
wrap64-fits (pos n) h = wrap64_in_range (pos n) (omega (arith, h)) (omega (arith, h))
wrap64-fits (negsuc n) h = wrap64_in_range (negsuc n) (omega (arith, h)) (omega (arith, h))

-- the answer to a token that is in use, and what the store has for it
abbrev Renewed :
    {S : Type 0}
    → (S → String → Option String)
    → String
    → String
    → String
    → String
    → String
    → S
    → Type 0
Renewed view token_k active_k id stamp a s =
    (a ≡ id) × Sees view token_k (some id) s × Sees view active_k (some stamp) s

module _ {S : Type 0} (d : Deps S) {view : S → String → Option String} {Fits : ℤ → Type 0}
    (h : IsHealthy d.store view Fits) (fits : Fits d.cfg.timeout)
    (limited : ltb_ℤ (pos 0) d.cfg.active_timeout ≡ true) (token id raw : String) (last : ℤ)
    (some_token : token ≢ "") (some_id : (trim_space id == "") ≡ false)
    (readable : parse_int64 raw ≡ ok last)
    (limit_fits : FitsInt64 (d.cfg.active_timeout *ℤ pos 1000))
    (elapsed_fits : FitsInt64 (d.now_ms -ℤ last)) where
  -- the last moment at which the token is not idle for too long, in milliseconds
  abbrev deadline : ℤ
  deadline = last +ℤ d.cfg.active_timeout *ℤ pos 1000

  is_idle-deadline : is_idle d last ≡ ltb_ℤ deadline d.now_ms
  unfolding is_idle ◌+ℤ◌
  is_idle-deadline =
      rw (wrap64-fits _ limit_fits, wrap64-fits _ elapsed_fits)
        (later d.now_ms last (d.cfg.active_timeout *ℤ pos 1000))

  too_late : is_idle d last ≡ true → deadline <ℤ d.now_ms
  too_late idle = let late = sym is_idle-deadline ∙ idle in ground (arith, late)

  in_time : is_idle d last ≡ false → d.now_ms ≤ℤ deadline
  in_time busy = let early = sym is_idle-deadline ∙ busy in ground (arith, early)

  abbrev token_k : String
  token_k = token_key d.cfg token

  abbrev active_k : String
  active_k = last_active_key d.cfg token

  abbrev Tracked : S → Type 0
  Tracked s = Sees view token_k (some id) s × Sees view active_k (some raw) s

  abbrev InUse : String → S → Type 0
  InUse = Renewed view token_k active_k id (show_int d.now_ms)

  is_limited : leb_ℤ d.cfg.active_timeout (pos 0) ≡ false
  is_limited = ground (arith, limited)

  stamps :
      Triple
        (Sees view token_k (some id))
        (set_last_active_to_now d token)
        (λ _ s. Sees view active_k (some (show_int d.now_ms)) s × Sees view token_k (some id) s)
        (λ _ _. ⊥)
  unfolding set_last_active_to_now
  stamps =
      Triple-if (leb_ℤ d.cfg.active_timeout (pos 0))
        (λ off. absurd (false≢true (sym is_limited ∙ off)))
        (λ _.
          Triple-weaken (λ s p. (tt, p)) (λ a s q. q) (λ e s q. q.0)
            (Triple-beside
              (set-Sees h (λ _. Unit {0}) (λ _ _. ⊥) active_k (show_int d.now_ms) d.cfg.timeout
                fits)
              (set-Keeps_other h active_k token_k (show_int d.now_ms) d.cfg.timeout (some id)
                (λ e. (keys_apart d.cfg token token).2 (sym e)))))

  touches : Triple (Sees view token_k (some id)) (touch d token id) InUse (λ _ _. ⊥)
  unfolding touch
  touches = Triple-bind stamps (λ _. Triple-pure id (λ s p. (refl, p.1, p.0)))

  in_use :
      is_idle d last ≡ false
      → Triple (Sees view token_k (some id)) (check_active d token id raw) InUse (λ _ _. ⊥)
  unfolding check_active
  in_use busy = rw (check_active, readable, busy) touches

  expelled :
      is_idle d last ≡ true
      → Triple
          (Sees view token_k (some id))
          (check_active d token id raw)
          (λ _ _. ⊥)
          (λ _. Sees view token_k none)
  unfolding check_active
  expelled idle =
      rw (check_active, readable, idle)
        (Triple-bind (Triple-weaken (λ s p. tt) (λ a s q. q) (λ e s q. q) (logout_clears d h token))
          (λ _. Triple-raise missing (λ s p. p)))

  answered :
      Triple
        (Sees view token_k (some id))
        (check_active d token id raw)
        (λ a s. (d.now_ms ≤ℤ deadline) × InUse a s)
        (λ _ s. (deadline <ℤ d.now_ms) × Sees view token_k none s)
  answered = elim (Bool-cases (is_idle d last)) [
    | inl idle ↦
        Triple-weaken (λ s p. p) (λ a s q. absurd q) (λ e s q. (too_late idle, q)) (expelled idle)
    | inr busy ↦
        Triple-weaken (λ s p. p) (λ a s q. (in_time busy, q)) (λ e s q. absurd q) (in_use busy)
  ]

  -- the read of the activity time, and what follows
  watched :
      {Q : String → S → Type 0} {E : GoError → S → Type 0}
      → Triple (Sees view token_k (some id)) (check_active d token id raw) Q E
      → Triple Tracked (watch d token id) Q E
  unfolding watch
  watched t =
      Triple-try {R = λ a s. (a ≡ raw) × Sees view token_k (some id) s} {F = λ _ _. ⊥}
        (Triple-weaken (λ s p. (p.1, p.0)) (λ a s q. (q.0.0, q.1)) (λ e s q. q.0)
          (Triple-beside (get-found h (λ _ _. ⊥) active_k raw)
            (get-Keeps h active_k token_k (some id))))
        (λ a. Triple-fact (λ e. rw (e, read_is_filled raw last readable) t))
        (λ e. record { at = λ s p. absurd p })

  checked :
      {Q : String → S → Type 0} {E : GoError → S → Type 0}
      → Triple Tracked (watch d token id) Q E
      → Triple Tracked (check_login d token) Q E
  unfolding check_login
  checked t =
      Triple-bind {R = λ a s. (a ≡ id) × Tracked s}
        (Triple-weaken (λ s p. p) (λ a s q. (q.0.0, (q.0.1, q.1))) (λ e s q. absurd q.0)
          (Triple-beside (lookup_found d h fits id token some_token some_id)
            (login_id_by_token-Keeps d h active_k (some raw) token)))
        (λ a. Triple-fact (λ e. rw (e, limited) t))

  -- Over a healthy store that the timeout fits, with an activity limit of some seconds, and a token
  -- that is not empty and whose login id, not blank, and readable activity time are stored,
  -- `CheckLogin` returns exactly until that time plus the limit, in milliseconds, has passed, where
  -- nothing of this overflows an int64. Then it returns the login id, which stays stored, and the
  -- activity time becomes now; later it fails and the token no longer has a login id.
  pub check_login_activity :
      (s : S)
      → view s (token_key d.cfg token) ≡ some id
      → view s (last_active_key d.cfg token) ≡ some raw
      → Outcome
          (λ a s'.
            (d.now_ms ≤ℤ last +ℤ d.cfg.active_timeout *ℤ pos 1000)
            × ((a ≡ id)
                × (view s' (token_key d.cfg token) ≡ some id)
                × (view s' (last_active_key d.cfg token) ≡ some (show_int d.now_ms))))
          (λ _ s'.
            (last +ℤ d.cfg.active_timeout *ℤ pos 1000 <ℤ d.now_ms)
            × (view s' (token_key d.cfg token) ≡ none))
          (check_login d token s).0
          (check_login d token s).1
  check_login_activity s stands tracked = (checked (watched answered)).at s (stands, tracked)
