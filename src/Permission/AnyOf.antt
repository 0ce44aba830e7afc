-- ===== src/Permission/AnyOf.antt =====
-- The checks of permission/permission.go that ask for one permission of several.
use acat_go_common.Common.{
  ◌≡◌, ◌↔◌, ◌⊎◌, inl, inr, refl, sym, ap, ◌∙◌, String, true, false, Option, none, some, List, [],
  ◌∷◌, if◌then◌else◌, All, Bool-cases,
}
use mathlib.Core.Bool.{false≢true}
use acat_go_common.Apperr.{GoError}
use acat_go_common.Exec.{Return, ok, err}
use acat_go_common.Satoken.Session.{Session}
use acat_go_common.Permission.{
  Checker, Actor, refused, is_root_session, is_none, first_pass, check, check_any,
  require_any_permission, require_permission_groups,
}
use acat_go_common.Permission.Decision.{
  Grants, check_outcome, Grants-of_require, require_is_check, require_of_Grants,
}

-- One of the permissions is granted; root needs none of them.
pub data GrantsAny : Option Actor → List String → Type 0 where
  any_as_root :
      {a : Actor} {codes : List String}
      → is_root_session a.session ≡ true
      → GrantsAny (some a) codes
  here :
      {a : Option Actor} {code : String} {codes : List String}
      → Grants a code
      → GrantsAny a (code ∷ codes)
  later :
      {a : Option Actor} {code : String} {codes : List String}
      → GrantsAny a codes
      → GrantsAny a (code ∷ codes)

any_of_check :
    (a : Actor) (codes : List String)
    → check_any a.checker a.session codes ≡ ok tt
    → GrantsAny (some a) codes
unfolding check_any
any_of_check a [] e = cc e
any_of_check a (code ∷ codes) e = elim (check_outcome a.checker a.session code) [
  | inl passes ↦ here (Grants-of_require (some a) code (require_is_check a code ∙ passes))
  | inr fails ↦ later (any_of_check a codes (rw fails at e))
]

check_any_of_none :
    (o : Option Session) (codes : List String)
    → is_root_session o ≡ false
    → check_any none o codes ≡ refused
unfolding check_any check
check_any_of_none o [] h = refl
check_any_of_none o (code ∷ codes) h = rw h (check_any_of_none o codes h)

no_checker_refuses :
    (c : Option Checker) (o : Option Session) (codes : List String)
    → is_root_session o ≡ false
    → (if is_none c then refused else check_any c o codes) ≡ check_any c o codes
no_checker_refuses none o codes h = sym (check_any_of_none o codes h)
no_checker_refuses (some c) o codes h = refl

-- The guards before the loop are the loop's own answers.
any_is_check :
    (a : Actor) (codes : List String)
    → is_root_session a.session ≡ false
    → require_any_permission (some a) codes ≡ check_any a.checker a.session codes
unfolding require_any_permission
any_is_check a [] h = rw h (unfold check_any in refl)
any_is_check a (code ∷ codes) h =
    let rest =
      if is_none a.checker then refused else check_any a.checker a.session (code ∷ codes) in
    ap (λ b. if b then ok tt else rest) h ∙ no_checker_refuses a.checker a.session (code ∷ codes) h

any_of_root :
    (a : Actor) (codes : List String)
    → is_root_session a.session ≡ true
    → require_any_permission (some a) codes ≡ ok tt
unfolding require_any_permission
any_of_root a codes root = rw root

GrantsAny-of_require :
    (a : Option Actor) (codes : List String)
    → require_any_permission a codes ≡ ok tt
    → GrantsAny a codes
unfolding require_any_permission
GrantsAny-of_require none codes e = cc e
GrantsAny-of_require (some a) codes e = elim (Bool-cases (is_root_session a.session)) [
  | inl root ↦ any_as_root root
  | inr other ↦ any_of_check a codes (sym (any_is_check a codes other) ∙ e)
]

or_passes : (r : Return (Unit {0})) → first_pass r (ok tt) ≡ ok tt
or_passes (ok u) = refl
or_passes (err e) = refl

check_of_any :
    {a : Actor} {codes : List String}
    → is_root_session a.session ≡ false
    → GrantsAny (some a) codes
    → check_any a.checker a.session codes ≡ ok tt
unfolding check_any
check_of_any other (any_as_root root) = absurd (false≢true (sym other ∙ root))
check_of_any {a} other (here {code} g) = rw (sym (require_is_check a code) ∙ require_of_Grants g)
check_of_any {a} other (later {code} g) =
    rw (check_of_any other g) (or_passes (check a.checker a.session code))

none_granted : {code : String} → Grants none code → ⊥
none_granted g = elim g [ ]

none_any : {codes : List String} → GrantsAny none codes → ⊥
none_any (here g) = none_granted g
none_any (later g) = none_any g

require_of_GrantsAny :
    (a : Option Actor) (codes : List String)
    → GrantsAny a codes
    → require_any_permission a codes ≡ ok tt
require_of_GrantsAny none codes g = absurd (none_any g)
require_of_GrantsAny (some a) codes g = elim (Bool-cases (is_root_session a.session)) [
  | inl root ↦ any_of_root a codes root
  | inr other ↦ any_is_check a codes other ∙ check_of_any other g
]

outcome_of : (r : Return (Unit {0})) → (r ≡ ok tt) ⊎ ((e : GoError) × (r ≡ err e))
outcome_of (ok u) = inl refl
outcome_of (err e) = inr (e, refl)

any_outcome :
    (a : Option Actor) (codes : List String)
    → (require_any_permission a codes ≡ ok tt)
      ⊎ ((e : GoError) × (require_any_permission a codes ≡ err e))
any_outcome a codes = outcome_of (require_any_permission a codes)

-- `RequireAnyPermission` passes exactly for root and for actors that are granted one of the
-- permissions: with an empty list for root alone.
pub require_any_permission-GrantsAny :
    (a : Option Actor) (codes : List String)
    → require_any_permission a codes ≡ ok tt ↔ GrantsAny a codes
require_any_permission-GrantsAny a codes =
    (GrantsAny-of_require a codes, require_of_GrantsAny a codes)

groups_granted :
    (a : Option Actor) (groups : List (List String))
    → require_permission_groups a groups ≡ ok tt
    → All (GrantsAny a) groups
unfolding require_permission_groups
groups_granted a [] e = tt
groups_granted a (group ∷ groups) e = elim (any_outcome a group) [
  | inl passes ↦ (GrantsAny-of_require a group passes, groups_granted a groups (rw passes at e))
  | inr (x, fails) ↦ cc (rw fails at e)
]

groups_pass :
    (a : Option Actor) (groups : List (List String))
    → All (GrantsAny a) groups
    → require_permission_groups a groups ≡ ok tt
unfolding require_permission_groups
groups_pass a [] g = refl
groups_pass a (group ∷ groups) (g, gs) =
    rw (require_of_GrantsAny a group g) (groups_pass a groups gs)

-- `RequirePermissionGroups` passes exactly if the actor is root, or is granted one permission of
-- each group; without groups it passes for everyone, a missing actor included.
pub require_permission_groups-GrantsAny :
    (a : Option Actor) (groups : List (List String))
    → require_permission_groups a groups ≡ ok tt ↔ All (GrantsAny a) groups
require_permission_groups-GrantsAny a groups = (groups_granted a groups, groups_pass a groups)
