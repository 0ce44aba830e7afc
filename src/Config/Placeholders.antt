-- ===== src/Config/Placeholders.antt =====
-- `ExpandEnv` of config/config.go: `${NAME:default}` is replaced by the environment's value.
pub mod Cuts
pub mod Ends
pub mod Templates
use acat_go_common.Common.{ℕ, zero, suc, String, Option, none, some}
use acat_go_common.Common.Text.Cut.{cut}
use acat_go_common.Apperr.{GoError, plain}
use Prim.Native.String.{[], ◌∷◌, ◌++◌}

-- What the loop ends with; it never is out of fuel.
pub data Expanded : Type 0 where
  done : String → Expanded
  failed : GoError → Expanded
  out_of_fuel : Expanded

abbrev pub unclosed : String → GoError
unclosed rest = plain ("配置占位符未闭合: " ++ rest)

abbrev pub unset : String → GoError
unset name = plain (("配置占位符 " ++ name) ++ " 未提供环境变量且无默认值")

abbrev pub after : String → Expanded → Expanded
after out (done s) = done (out ++ s)
after out (failed e) = failed e
after out out_of_fuel = out_of_fuel

-- the name and the default of a placeholder
abbrev pub name_of : String → Option (String × String) → String
name_of expr none = expr
name_of expr (some parts) = parts.0

abbrev pub fallback_of : Option (String × String) → Option String
fallback_of none = none
fallback_of (some parts) = some parts.1

-- the environment's value, or the default
abbrev pub value_of : Option String → Option String → Option String
value_of (some v) fallback = some v
value_of none fallback = fallback

-- one round of the loop for a placeholder, where `rest` is what the rounds behind it give
abbrev pub place : String → Option String → Expanded → Expanded
place name none rest = failed (unset name)
place name (some v) rest = after v rest

-- the number of characters
abbrev pub size : String → ℕ
size [] = 0
size (c ∷ s) = suc (size s)

module _ (env : String → Option String) where
  unfoldable pub expand : ℕ → String → Expanded
  unfolding cut
  expand zero input = out_of_fuel
  expand (suc fuel) input = elim (cut "${" input) [
    | none ↦ done input
    | some (out, tail) ↦ elim (cut "}" tail) [
      | none ↦ failed (unclosed ("${" ++ tail))
      | some (expr, rest) ↦
          let parts = cut ":" expr in
          let name = name_of expr parts in
          after out (place name (value_of (env name) (fallback_of parts)) (expand fuel rest))
    ]
  ]

  -- one round for each placeholder, and a last one
  unfoldable pub expand_env : String → Expanded
  unfolding expand
  expand_env input = expand (suc (size input)) input
