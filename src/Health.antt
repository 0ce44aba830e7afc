-- ===== src/Health.antt =====
-- health/health.go: the registry of readiness checks and its probes. A check is what it answers to
-- the request; the order in which the checks run is not seen.
pub mod Ready
mod Tests
use acat_go_common.Common.{
  String, Bool, true, false, ◌&&◌, Option, none, some, List, [], ◌∷◌, ◌==◌, map, if◌then◌else◌,
}
use acat_go_common.Common.Int.{ℤ, pos}
use acat_go_common.Common.Assoc.{insert}
use acat_go_common.Apperr.{GoError, text}

-- `none` is the nil error.
abbrev pub CheckFunc : Type 0
CheckFunc = Option GoError

-- `Registry`, by name
abbrev pub Registry : Type 0
Registry = List (String × CheckFunc)

-- `Register`; a nil function is `none`.
unfoldable pub register : String → Option CheckFunc → Registry → Registry
unfolding insert
register name none r = r
register name (some fn) r = if name == "" then r else insert name fn r

-- `statusPayload` and the HTTP status that it is written with
pub record Probe : Type 0 where
  pub http_status : ℤ
  pub status : String
  pub checks : List (String × String)

-- `LiveHandler`
unfoldable pub live : Registry → Probe
live r = record { http_status = pos 200; status = "UP"; checks = [] }

abbrev result_of : CheckFunc → String
result_of none = "UP"
result_of (some e) = text e

abbrev passes : CheckFunc → Bool
passes none = true
passes (some e) = false

-- the loop over the checks
unfoldable pub results : Registry → List (String × String)
unfolding text
results r = map (λ c. (c.0, result_of c.1)) r

unfoldable pub healthy : Registry → Bool
healthy [] = true
healthy (c ∷ r) = passes c.1 && healthy r

-- `ReadyHandler`
unfoldable pub ready : Registry → Probe
unfolding results healthy
ready r =
    if healthy r
    then record { http_status = pos 200; status = "UP"; checks = results r }
    else record { http_status = pos 503; status = "DOWN"; checks = results r }
