-- ===== src/Mysqlx/Violations.antt =====
-- mysqlx/mysqlx.go: what a caller learns of a failed statement.
use acat_go_common.Common.{
  ◌≡◌, refl, String, Option, some, List, if◌then◌else◌, Bool-cases, inl, inr,
}
use acat_go_common.Apperr.{GoError, wrapped, no_rows, is}
use acat_go_common.Exec.{err, try}
use Prim.Native.String.{◌++◌}
use acat_go_common.Mysqlx.{as_mysql, SqlValue, is_integrity_violation, wrap_no_rows}
use acat_go_common.Mysqlx.Statements.{Field, Dbtx, inserted, insert_statement, insert}

abbrev insert_failure : String → GoError → GoError
insert_failure table e = wrapped ("插入 " ++ (table ++ " 失败: ")) e ""

insert_fails :
    {S : Type 0} (tx : Dbtx S) (table : String) (fields : List Field) (query : String)
    (args : List (Option SqlValue)) (s : S) (e : GoError)
    → insert_statement table (inserted fields) ≡ some (query, args)
    → (tx.exec_context query args s).0 ≡ err e
    → (insert tx table fields s).0 ≡ err (insert_failure table e)
unfolding insert try
insert_fails tx table fields query args s e st f = rw (insert, st, f)

rewrapped :
    (table action : String) (e missing : GoError)
    → (again : GoError) × (wrap_no_rows (some (insert_failure table e)) missing action ≡ some again)
      × (if is e no_rows
          then again ≡ missing
          else is_integrity_violation again ≡ is_integrity_violation e)
unfolding wrap_no_rows is is_integrity_violation as_mysql
rewrapped table action e missing = elim (Bool-cases (is e no_rows)) [
  | inl q ↦ rw q (missing, refl, refl)
  | inr q ↦ rw q (wrapped (action ++ ": ") (insert_failure table e) "", refl, refl)
]

-- An `Insert` whose statement fails returns an error in which `IsIntegrityViolation` finds what it
-- finds in the driver's error, and in which `errors.Is` finds a missing row if it did there;
-- `WrapNoRows` then gives the caller's error for a missing row, and keeps a violation otherwise.
pub insert_keeps_violation :
    {S : Type 0} (tx : Dbtx S) (table action : String) (fields : List Field) (missing : GoError)
    (query : String) (args : List (Option SqlValue)) (s : S) (e : GoError)
    → insert_statement table (inserted fields) ≡ some (query, args)
    → (tx.exec_context query args s).0 ≡ err e
    → (failure : GoError) × ((insert tx table fields s).0 ≡ err failure)
      × (is_integrity_violation failure ≡ is_integrity_violation e)
      × ((wrapped_again : GoError) × (wrap_no_rows (some failure) missing action
            ≡ some wrapped_again)
          × (if is e no_rows
              then wrapped_again ≡ missing
              else is_integrity_violation wrapped_again ≡ is_integrity_violation e))
unfolding is_integrity_violation as_mysql
insert_keeps_violation tx table action fields missing query args s e st f = (
  insert_failure table e,
  insert_fails tx table fields query args s e st f,
  refl,
  rewrapped table action e missing,
)
