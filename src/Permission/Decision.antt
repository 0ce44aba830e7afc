-- ===== src/Permission/Decision.antt =====
-- Who is granted what: the checks of permission/permission.go against a description of the grants.
use acat_go_common.Common.{
  ◌≡◌, ◌≢◌, ◌↔◌, ◌⊎◌, inl, inr, refl, sym, ◌∙◌, String, true, false, Option, none, some, List, [],
  ◌∷◌, ◌==◌, eq_iff, contains, All, arith, Bool-cases, Option-cases,
}
use acat_go_common.Exec.{ok}
use acat_go_common.Satoken.Session.{Session, string_list}
use acat_go_common.Satoken.Logic.{has_entry, check_permission}
use acat_go_common.Permission.{
  Checker, Actor, refused, is_root_session, check, require_permission, require_all_permissions,
}

-- The permission list of the session has the code, and there is a checker to read it.
pub data Lists : Option Checker → Option Session → String → Type 0 where
  lists :
      {c : Checker} {s : Session} {code : String}
      → c.has_logic ≡ true
      → code ≢ ""
      → contains (string_list s "permissions") code ≡ true
      → Lists (some c) (some s) code

-- An actor has a permission as root, by the roles of its session, or by its session's list.
pub data Grants : Option Actor → String → Type 0 where
  as_root : {a : Actor} {code : String} → is_root_session a.session ≡ true → Grants (some a) code
  by_list : {a : Actor} {code : String} → Lists a.checker a.session code → Grants (some a) code

Lists-of_check :
    (c : Option Checker) (o : Option Session) (code : String)
    → is_root_session o ≡ false
    → check c o code ≡ ok tt
    → Lists c o code
unfolding check check_permission has_entry
Lists-of_check none o code h e = cc (rw h at e)
Lists-of_check (some c) none code h e = elim (Bool-cases c.has_logic) [
  | inl logic ↦ cc (rw (h, logic) at e)
  | inr no_logic ↦ cc (rw (h, no_logic) at e)
]
Lists-of_check (some c) (some s) code h e = elim (Bool-cases c.has_logic) [
  | inr no_logic ↦ cc (rw (h, no_logic) at e)
  | inl logic ↦ elim (Bool-cases (code == "")) [
    | inl empty ↦ cc (rw (h, logic, empty) at e)
    | inr filled ↦ elim (Bool-cases (contains (string_list s "permissions") code)) [
      | inl listed ↦ lists logic (ground (arith, eq_iff code "", filled)) listed
      | inr missing ↦ cc (rw (h, logic, filled, missing) at e)
    ]
  ]
]

check_of_Lists :
    {c : Option Checker} {o : Option Session} {code : String}
    → Lists c o code
    → check c o code ≡ ok tt
unfolding check check_permission has_entry
check_of_Lists {code = code} (lists logic filled listed) = ground (arith, eq_iff code "")

pub check_outcome :
    (c : Option Checker) (o : Option Session) (code : String)
    → (check c o code ≡ ok tt) ⊎ (check c o code ≡ refused)
unfolding check
check_outcome c o code = ground arith

pub require_is_check :
    (a : Actor) (code : String) → require_permission (some a) code ≡ check a.checker a.session code
unfolding require_permission check
require_is_check a code = elim (Bool-cases (is_root_session a.session)) [
  | inl root ↦ rw root
  | inr other ↦ elim (Option-cases a.checker) [
    | inl missing ↦ rw (other, missing)
    | inr (c, there) ↦ rw (other, there)
  ]
]

check_of_root :
    (c : Option Checker) (o : Option Session) (code : String)
    → is_root_session o ≡ true
    → check c o code ≡ ok tt
unfolding check
check_of_root c o code root = rw root

require_outcome :
    (a : Option Actor) (code : String)
    → (require_permission a code ≡ ok tt) ⊎ (require_permission a code ≡ refused)
unfolding require_permission
require_outcome none code = inr refl
require_outcome (some a) code = rw require_is_check (check_outcome a.checker a.session code)

pub Grants-of_require :
    (a : Option Actor) (code : String) → require_permission a code ≡ ok tt → Grants a code
unfolding require_permission
Grants-of_require none code e = cc e
Grants-of_require (some a) code e = elim (Bool-cases (is_root_session a.session)) [
  | inl root ↦ as_root root
  | inr other ↦
      by_list (Lists-of_check a.checker a.session code other (sym (require_is_check a code) ∙ e))
]

pub require_of_Grants :
    {a : Option Actor} {code : String} → Grants a code → require_permission a code ≡ ok tt
require_of_Grants {code = code} (as_root {a} root) =
    require_is_check a code ∙ check_of_root a.checker a.session code root
require_of_Grants {code = code} (by_list {a} l) = require_is_check a code ∙ check_of_Lists l

-- `RequirePermission` passes exactly for the permissions that the actor is granted, and what it
-- answers otherwise is the 403.
pub require_permission-Grants :
    (a : Option Actor) (code : String)
    → (require_permission a code ≡ ok tt ↔ Grants a code)
      × ((require_permission a code ≡ ok tt) ⊎ (require_permission a code ≡ refused))
require_permission-Grants a code =
    ((Grants-of_require a code, require_of_Grants), require_outcome a code)

all_head :
    (a : Option Actor) (code : String) (codes : List String)
    → require_permission a code ≡ ok tt
    → require_all_permissions a (code ∷ codes) ≡ require_all_permissions a codes
unfolding require_all_permissions
all_head a code codes e = rw e

Grants-of_All :
    (a : Option Actor) (codes : List String)
    → require_all_permissions a codes ≡ ok tt
    → All (Grants a) codes
unfolding require_all_permissions
Grants-of_All a [] e = tt
Grants-of_All a (code ∷ codes) e = elim (require_outcome a code) [
  | inl passes ↦ (Grants-of_require a code passes, Grants-of_All a codes (rw passes at e))
  | inr fails ↦ cc (rw fails at e)
]

All-of_Grants :
    (a : Option Actor) (codes : List String)
    → All (Grants a) codes
    → require_all_permissions a codes ≡ ok tt
unfolding require_all_permissions
All-of_Grants a [] g = refl
All-of_Grants a (code ∷ codes) (g, gs) = rw (require_of_Grants g) (All-of_Grants a codes gs)

-- `RequireAllPermissions` passes exactly if every one of the permissions is granted.
pub require_all_permissions-Grants :
    (a : Option Actor) (codes : List String)
    → require_all_permissions a codes ≡ ok tt ↔ All (Grants a) codes
require_all_permissions-Grants a codes = (Grants-of_All a codes, All-of_Grants a codes)
