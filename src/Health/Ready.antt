-- ===== src/Health/Ready.antt =====
-- What the readiness probe of health/health.go says of the checks.
use acat_go_common.Common.{◌≡◌, ◌⊎◌, inl, inr, refl, String, true, false, none, some, [], ◌∷◌}
use acat_go_common.Common.Int.{pos}
use acat_go_common.Apperr.{GoError}
use acat_go_common.Health.{CheckFunc, Registry, healthy, ready}

-- Does the check of this name fail?
pub data Fails : Registry → Type 0 where
  first : {name : String} {e : GoError} {r : Registry} → Fails ((name, some e) ∷ r)
  later : {c : String × CheckFunc} {r : Registry} → Fails r → Fails (c ∷ r)

-- Every check passes.
abbrev pub AllPass : Registry → Type 0
AllPass [] = Unit
AllPass (c ∷ r) = (c.1 ≡ none) × AllPass r

pub healthy_decides :
    (r : Registry) → ((healthy r ≡ true) × AllPass r) ⊎ ((healthy r ≡ false) × Fails r)
unfolding healthy
healthy_decides [] = inl (refl, tt)
healthy_decides ((name, some e) ∷ r) = inr (refl, first)
healthy_decides ((name, none) ∷ r) = elim (healthy_decides r) [
  | inl (up, p) ↦ inl (up, (refl, p))
  | inr (down, f) ↦ inr (down, later f)
]

-- The readiness probe answers 200 and `UP` exactly if every check passes, and 503 and `DOWN` exactly
-- if one fails.
pub ready_decides :
    (r : Registry)
    → (AllPass r × ((ready r).http_status ≡ pos 200) × ((ready r).status ≡ "UP"))
      ⊎ (Fails r × ((ready r).http_status ≡ pos 503) × ((ready r).status ≡ "DOWN"))
unfolding ready
ready_decides r = elim (healthy_decides r) [
  | inl (up, p) ↦ inl (p, rw up refl, rw up refl)
  | inr (down, f) ↦ inr (f, rw down refl, rw down refl)
]
