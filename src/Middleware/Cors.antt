-- ===== src/Middleware/Cors.antt =====
-- Which cross-origin answers `CORS` of middleware/middleware.go gives.
use acat_go_common.Common.{
  ◌≡◌, ◌≢◌, ◌⊎◌, inl, inr, refl, String, Bool, true, false, not, ◌&&◌, Option, none, some, List, [],
  ◌∷◌, ◌==◌, eq_iff, arith, contains, if◌then◌else◌, Bool-cases,
}
use acat_go_common.Common.Assoc.{lookup, insert}
use acat_go_common.Middleware.{cors_headers}
use acat_go_common.Middleware.Http.{Writer, fresh_writer}

abbrev pub origin_in : Writer → Option (List String)
origin_in w = lookup "Access-Control-Allow-Origin" w.headers

abbrev pub credentials_in : Writer → Option (List String)
credentials_in w = lookup "Access-Control-Allow-Credentials" w.headers

-- no origin is allowed
abbrev pub Denied : Writer → Type 0
Denied w = (origin_in w ≡ none) × (credentials_in w ≡ none)

-- every origin is allowed, without credentials
abbrev pub Wildcard : Writer → Type 0
Wildcard w = (origin_in w ≡ some ("*" ∷ [])) × (credentials_in w ≡ none)

-- this origin is allowed, with credentials if they are configured
abbrev pub Echoed : Bool → String → Writer → Type 0
Echoed credentials origin w =
    (origin_in w ≡ some (origin ∷ []))
    × (credentials_in w ≡ (if credentials then some ("true" ∷ []) else none))

module _ (allowed : List String) (credentials : Bool) (origin : String)
    (given : (origin == "") ≡ false) (strict : (contains allowed "*" && not credentials) ≡ false)
    (known : (contains allowed origin && not (origin == "*")) ≡ true) where
  echoed_origin :
      origin_in (cors_headers allowed credentials origin fresh_writer) ≡ some (origin ∷ [])
  unfolding cors_headers lookup insert
  echoed_origin = elim (Bool-cases credentials) [
    | inl on ↦ rw (given, strict, known, on) refl
    | inr off ↦ rw (given, strict, known, off) refl
  ]

  echoed_credentials :
      credentials_in (cors_headers allowed credentials origin fresh_writer)
      ≡ (if credentials then some ("true" ∷ []) else none)
  unfolding cors_headers lookup insert
  echoed_credentials = elim (Bool-cases credentials) [
    | inl on ↦ rw (given, strict, known, on) refl
    | inr off ↦ rw (given, strict, known, off) refl
  ]

-- `CORS` denies an origin; or it allows every origin, and then the wildcard is configured and
-- credentials are neither configured nor allowed; or it allows the very origin of the request, and
-- then this origin is configured by name and is not the wildcard.
pub cors_decides :
    (allowed : List String) (credentials : Bool) (origin : String)
    → Denied (cors_headers allowed credentials origin fresh_writer)
      ⊎ ((Wildcard (cors_headers allowed credentials origin fresh_writer)
            × (contains allowed "*" ≡ true)
            × (credentials ≡ false))
          ⊎ (Echoed credentials origin (cors_headers allowed credentials origin fresh_writer)
              × (contains allowed origin ≡ true)
              × (origin ≢ "*")))
unfolding cors_headers lookup insert
cors_decides allowed credentials origin = elim (Bool-cases (origin == "")) [
  | inl absent ↦ inl (rw absent refl, rw absent refl)
  | inr given ↦ elim (Bool-cases (contains allowed "*" && not credentials)) [
    | inl wildcard ↦ inr (
        inl (
          (rw (given, wildcard) refl, rw (given, wildcard) refl),
          ground (arith, wildcard),
          ground (arith, wildcard),
        ))
    | inr strict ↦ elim (Bool-cases (contains allowed origin && not (origin == "*"))) [
      | inr unknown ↦ inl (rw (given, strict, unknown) refl, rw (given, strict, unknown) refl)
      | inl known ↦ inr (
          inr (
            (
              echoed_origin allowed credentials origin given strict known,
              echoed_credentials allowed credentials origin given strict known,
            ),
            ground (arith, known),
            ground (arith, known, eq_iff origin "*"),
          ))
    ]
  ]
]
