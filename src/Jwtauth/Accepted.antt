-- ===== src/Jwtauth/Accepted.antt =====
-- jwtauth/logic.go: `Login`, then `CheckLogin`.
use acat_go_common.Common.{
  ◌≡◌, refl, ap, ◌∙◌, String, true, false, ◌==◌, if◌then◌else◌, eq_refl, Bool-cases, inl, inr,
}
use acat_go_common.Common.Int.{ℤ, pos, ◌*ℤ◌, ltb_ℤ}
use acat_go_common.Common.Text.{trim_space}
use acat_go_common.Common.Text.Trimmed.{trim_space-twice}
use acat_go_common.Apperr.{GoError}
use acat_go_common.Exec.{Return-cases, ok, err}
use acat_go_common.Jwtauth.{JwtConfig, Claims, Jwt, claims_for, missing, login, check_login}

-- What the library documents of a token that it signed for some claims: it parses with the same secret
-- and issuer, to the claims, until it expires; it is not empty and holds no white space at its ends.
pub record Verifies (jwt : Jwt) (c : Claims) : Type 0 where
  pub valid :
      (secret issuer token : String) (wall : ℤ)
      → jwt.signed_string c secret ≡ ok token
      → (c.issuer == issuer) ≡ true
      → ltb_ℤ wall (c.expires_at *ℤ pos 1_000_000_000) ≡ true
      → jwt.parse_with_claims secret issuer wall token ≡ ok c
  pub expired :
      (secret issuer token : String) (wall : ℤ)
      → jwt.signed_string c secret ≡ ok token
      → ltb_ℤ wall (c.expires_at *ℤ pos 1_000_000_000) ≡ false
      → (e : GoError) × (jwt.parse_with_claims secret issuer wall token ≡ err e)
  pub spelled :
      (secret token : String)
      → jwt.signed_string c secret ≡ ok token
      → (trim_space token ≡ token) × ((token == "") ≡ false)

module _ (jwt : Jwt) (cfg : JwtConfig) (id : String)
    (law : Verifies jwt (claims_for cfg (trim_space id))) where
  -- only a login id that is not blank is signed, and it is signed trimmed
  signed :
      (token : String)
      → login jwt cfg id ≡ ok token
      → ((trim_space id == "") ≡ false)
        × (jwt.signed_string (claims_for cfg (trim_space id)) cfg.secret ≡ ok token)
  unfolding login
  signed token h = elim (Bool-cases (trim_space id == "")) [
    | inl e ↦ let no : err _ ≡ ok token = rw (login, e) at h in absurd (cc no)
    | inr e ↦ elim (Return-cases (jwt.signed_string (claims_for cfg (trim_space id)) cfg.secret)) [
      | inl (why, f) ↦ let no : err _ ≡ ok token = rw (login, e, f) at h in absurd (cc no)
      | inr (t, f) ↦ let same : ok t ≡ ok token = rw (login, e, f) at h in (e, f ∙ same)
    ]
  ]

  -- the moment from which the token is no longer taken
  abbrev expiry : ℤ
  expiry = (claims_for cfg (trim_space id)).expires_at *ℤ pos 1_000_000_000

  claims_named :
      (trim_space id == "") ≡ false
      → (trim_space (claims_for cfg (trim_space id)).subject == "") ≡ false
  unfolding claims_for
  claims_named e = rw (trim_space-twice id) e

  own_issuer : ((claims_for cfg (trim_space id)).issuer == cfg.issuer) ≡ true
  unfolding claims_for
  own_issuer = eq_refl cfg.issuer

  subject_of : (claims_for cfg (trim_space id)).subject ≡ trim_space id
  unfolding claims_for
  subject_of = refl

  -- Where the library verifies a token that it signed until it expires, and its tokens hold no white
  -- space at their ends, `CheckLogin` of a token that `Login` returned answers the trimmed login id
  -- while the wall clock is before the token's expiry, and `ErrNotFound` from then on.
  pub login_checked :
      (token : String) (wall : ℤ)
      → login jwt cfg id ≡ ok token
      → check_login jwt cfg wall token
        ≡ (if ltb_ℤ wall expiry then ok (trim_space id) else err missing)
  unfolding check_login
  login_checked token wall h =
      let (named, s) = signed token h in
      let c = claims_for cfg (trim_space id) in
      let (trimmed, filled) = law.spelled cfg.secret token s in
      elim (Bool-cases (ltb_ℤ wall expiry)) [
        | inl q ↦
            let parses = law.valid cfg.secret cfg.issuer token wall s own_issuer q in
            rw (check_login, q, trimmed, filled, parses, claims_named named) (ap ok subject_of)
        | inr q ↦
            let (e, parses) = law.expired cfg.secret cfg.issuer token wall s q in
            rw (check_login, q, trimmed, filled, parses)
      ]
