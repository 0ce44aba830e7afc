-- ===== src/Satoken/Store.antt =====
-- satoken/store.go: the `Store` interface, what a working store promises its clients, and
-- `expireToTimeout`. A context is fixed for an operation, so it is not an argument here.
pub mod Healthy
use acat_go_common.Common.{String, Bool, ◌||◌, if◌then◌else◌}
use acat_go_common.Common.Int.{ℤ, pos, leb_ℤ, ltb_ℤ, eqb_ℤ}
use acat_go_common.Common.Text.{show_int}
use acat_go_common.Apperr.{plain}
use acat_go_common.Exec.{Return, Exec, ok, err}
use acat_go_common.Satoken.Keys.{never_expire, not_value_expire}
use Prim.Native.String.{◌++◌}

-- The methods over a state `S`; `close` is not modelled.
pub record Store (S : Type 0) : Type 0 where
  pub get : String → Exec S String
  pub set : String → String → ℤ → Exec S (Unit {0})
  pub delete : String → Exec S (Unit {0})
  pub expire : String → Exec S ℤ
  pub set_expire : String → ℤ → Exec S (Unit {0})

-- the timeouts with which `Set` writes nothing
abbrev pub writes_nothing : ℤ → Bool
writes_nothing timeout = eqb_ℤ timeout (pos 0) || leb_ℤ timeout not_value_expire

unfoldable pub expire_to_timeout : ℤ → Return ℤ
expire_to_timeout seconds =
    if eqb_ℤ seconds never_expire
    then ok never_expire
    else if eqb_ℤ seconds not_value_expire
    then err (plain "satoken: 目标键不存在，无法续期")
    else if ltb_ℤ (pos 0) seconds
    then ok seconds
    else err (plain ("satoken: 非法的剩余时间 " ++ show_int seconds))
