-- ===== src/Permission.antt =====
-- permission/permission.go: the permission checks of the management services. A nil pointer is
-- `none`; an error is the 403 of apperr.
pub mod Decision
pub mod AnyOf
pub mod Saved
mod Tests
use acat_go_common.Common.{
  String, Bool, true, false, Option, none, some, List, [], ◌∷◌, ◌==◌, any, if◌then◌else◌,
}
use acat_go_common.Apperr.{forbidden}
use acat_go_common.Exec.{Return, ok, err}
use acat_go_common.Satoken.Value.{Value}
use acat_go_common.Satoken.Session.{Session, string_list}
use acat_go_common.Satoken.Logic.{check_permission, login_id_of}

abbrev pub root_role_id : String
root_role_id = "root"

abbrev pub message_forbidden : String
message_forbidden = "无操作权限"

-- `Checker`, as far as it matters: whether its `logic` is there. `Logic.CheckPermission` reads
-- nothing of it.
pub record Checker : Type 0 where
  pub has_logic : Bool

pub record Actor : Type 0 where
  pub login_id : String
  pub session : Option Session
  pub checker : Option Checker

abbrev pub refused : Return (Unit {0})
refused = err (forbidden message_forbidden)

-- `LoginID`; `%v` of a value that is no text is the first argument.
unfoldable pub login_id : (Value → String) → Option Session → String
unfolding login_id_of
login_id format none = ""
login_id format (some s) = login_id_of format s

-- `IsRootSession`
unfoldable pub is_root_session : Option Session → Bool
unfolding string_list
is_root_session none = false
is_root_session (some s) = any (λ role. role == root_role_id) (string_list s "roles")

-- `ActorFrom`, given the session of the request's context
unfoldable pub actor_from : (Value → String) → Option Session → Option Checker → Actor
unfolding login_id
actor_from format session checker = record {
  login_id = login_id format session;
  session = session;
  checker = checker;
}

abbrev has_no_logic : Option Checker → Bool
has_no_logic none = true
has_no_logic (some c) = if c.has_logic then false else true

abbrev is_nil : Option Session → Bool
is_nil none = true
is_nil (some s) = false

-- `Checker.CheckPermission`
unfoldable pub check : Option Checker → Option Session → String → Return (Unit {0})
unfolding is_root_session check_permission
check c session code =
    if is_root_session session
    then ok tt
    else if has_no_logic c
    then refused
    else if is_nil session
    then refused
    else if code == ""
    then refused
    else if check_permission session code
    then ok tt
    else refused

abbrev pub is_none : Option Checker → Bool
is_none none = true
is_none (some c) = false

-- `RequirePermission`
unfoldable pub require_permission : Option Actor → String → Return (Unit {0})
unfolding check
require_permission none code = refused
require_permission (some a) code =
    if is_root_session a.session
    then ok tt
    else if is_none a.checker
    then refused
    else check a.checker a.session code

-- `if err != nil { return err }` in a loop
abbrev and_then : Return (Unit {0}) → Return (Unit {0}) → Return (Unit {0})
and_then (ok u) rest = rest
and_then (err e) rest = err e

unfoldable pub require_all_permissions : Option Actor → List String → Return (Unit {0})
unfolding require_permission
require_all_permissions a [] = ok tt
require_all_permissions a (code ∷ codes) =
    and_then (require_permission a code) (require_all_permissions a codes)

-- the loop of `RequireAnyPermission`
abbrev pub first_pass : Return (Unit {0}) → Return (Unit {0}) → Return (Unit {0})
first_pass (ok u) rest = ok tt
first_pass (err e) rest = rest

unfoldable pub check_any : Option Checker → Option Session → List String → Return (Unit {0})
unfolding check
check_any c session [] = refused
check_any c session (code ∷ codes) = first_pass (check c session code) (check_any c session codes)

abbrev is_empty : List String → Bool
is_empty [] = true
is_empty (x ∷ xs) = false

unfoldable pub require_any_permission : Option Actor → List String → Return (Unit {0})
unfolding is_root_session check_any
require_any_permission none codes = refused
require_any_permission (some a) codes =
    if is_root_session a.session
    then ok tt
    else if is_empty codes
    then refused
    else if is_none a.checker
    then refused
    else check_any a.checker a.session codes

unfoldable pub require_permission_groups : Option Actor → List (List String) → Return (Unit {0})
unfolding require_any_permission
require_permission_groups a [] = ok tt
require_permission_groups a (group ∷ groups) =
    and_then (require_any_permission a group) (require_permission_groups a groups)
