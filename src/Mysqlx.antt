-- ===== src/Mysqlx.antt =====
-- mysqlx/mysqlx.go: nullable columns, constraint errors, and the statements that are put together
-- for a table. An argument of a statement is `none` for NULL.
pub mod Statements
pub mod Marks
pub mod Arity
pub mod Violations
mod Tests
use acat_go_common.Common.{
  ℕ, zero, suc, String, Bool, ◌||◌, Option, none, some, List, [], ◌∷◌, ◌==◌, nat_eq, if◌then◌else◌,
}
use acat_go_common.Common as C
use acat_go_common.Common.Int.{ℤ, pos, negsuc, ltb_ℤ, leb_ℤ, eqb_ℤ}
use acat_go_common.Apperr.{
  GoError, mysql, wrapped, is, no_rows, joined, error_caused, business_caused,
}
use Prim.Native.String
use Prim.Native.String.{◌++◌}

-- `sql.NullString` and its kind
pub record NullColumn (A : Type 0) : Type 0 where
  pub value : A
  pub valid : Bool

-- `NullString`, `NullInt`, `NullInt64`, `NullFloat`, `NullBool`, `NullTime`: an int has 64 bits.
unfoldable pub null_value : {A : Type 0} → NullColumn A → Option A
null_value c = if c.valid then some c.value else none

-- An argument of a statement; a time and a float are what the driver makes of them.
pub data SqlValue : Type 0 where
  text : String → SqlValue
  int : ℤ → SqlValue
  bool : Bool → SqlValue
  other : String → SqlValue

-- `Arg`, `IntArg`, `Int64Arg`, `FloatArg`, `BoolArg`, `TimeArg`: a nil pointer is the nil `any`.
unfoldable pub arg : {A : Type 0} → (A → SqlValue) → Option A → Option SqlValue
arg wrap none = none
arg wrap (some a) = some (wrap a)

abbrev pub or_else {ℓ} : {A : Type ℓ} → Option A → Option A → Option A
or_else none o = o
or_else (some a) o = some a

-- `errors.As` for a `*MySQLError`
unfoldable pub as_mysql : GoError → Option (ℕ × String)
as_mysql (mysql n m) = some (n, m)
as_mysql (wrapped pre e post) = as_mysql e
as_mysql (joined a b) = or_else (as_mysql a) (as_mysql b)
as_mysql (error_caused e c) = as_mysql c
as_mysql (business_caused b c) = as_mysql c
as_mysql _ = none

abbrev pub is_constraint : ℕ → Bool
is_constraint n =
    nat_eq n 1048
    || nat_eq n 1062
    || nat_eq n 1364
    || nat_eq n 1216
    || nat_eq n 1217
    || nat_eq n 1451
    || nat_eq n 1452

abbrev violation_of : Option (ℕ × String) → Option (ℕ × String)
violation_of none = none
violation_of (some (n, m)) = if is_constraint n then some (n, m) else none

unfoldable pub is_integrity_violation : GoError → Option (ℕ × String)
unfolding as_mysql
is_integrity_violation e = violation_of (as_mysql e)

unfoldable pub wrap_no_rows : Option GoError → GoError → String → Option GoError
unfolding is
wrap_no_rows none missing action = none
wrap_no_rows (some e) missing action =
    if is e no_rows then some missing else some (wrapped (action ++ ": ") e "")

-- `strings.Repeat`
unfoldable pub repeat : String → ℕ → String
repeat s zero = ""
repeat s (suc n) = s ++ repeat s n

-- `strings.TrimSuffix` of a suffix that is not empty
unfoldable pub trim_suffix : String → String → String
trim_suffix String.[] suffix = String.[]
trim_suffix (String.◌∷◌ c s) suffix =
    let rest = String.◌∷◌ c (trim_suffix s suffix) in
    if String.◌∷◌ c s == suffix then String.[] else rest

abbrev nat_of : ℤ → ℕ
nat_of (pos n) = n
nat_of (negsuc n) = 0

unfoldable pub placeholders : ℤ → String
unfolding repeat trim_suffix
placeholders n = if leb_ℤ n (pos 0) then "" else trim_suffix (repeat "?, " (nat_of n)) ", "

unfoldable pub placeholders_compact : ℤ → String
unfolding repeat trim_suffix
placeholders_compact n = if leb_ℤ n (pos 0) then "" else trim_suffix (repeat "?," (nat_of n)) ","

unfoldable pub append_limit : String → ℤ → ℤ → String
append_limit query limit offset =
    if ltb_ℤ limit (pos 0) then query else query ++ " LIMIT ? OFFSET ?"

unfoldable pub append_limit_args : String → ℤ → ℤ → String × List (Option SqlValue)
append_limit_args query limit offset =
    if ltb_ℤ limit (pos 0)
    then (query, [])
    else (query ++ " LIMIT ? OFFSET ?", some (int limit) ∷ some (int offset) ∷ [])

unfoldable pub append_limit_comma : String → ℤ → ℤ → String × List (Option SqlValue)
append_limit_comma query limit offset =
    if ltb_ℤ limit (pos 0)
    then (query, [])
    else if eqb_ℤ offset (pos 0)
    then (query ++ " LIMIT ?", some (int limit) ∷ [])
    else (query ++ " LIMIT ?, ?", some (int offset) ∷ some (int limit) ∷ [])
