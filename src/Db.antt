-- ===== src/Db.antt =====
-- db/tx.go: a database handle that joins the transaction of its context. database/sql is outside:
-- `Sql` is what the code calls of it. A context is the transaction in it, if there is one.
pub mod Affected
pub mod Strict
pub mod Atomic
mod Tests
use acat_go_common.Common.{String, Bool, Option, none, some, if◌then◌else◌}
use acat_go_common.Apperr.{
  GoError, sentinel, handle_uninitialized, tx_done, plain, wrapped, joined, is,
}
use acat_go_common.Exec.{Return, Exec, ok, err}

-- What database/sql does with the pool of the handle and its transactions, over a state `S`: `T` are
-- transactions, `Q` statements with their arguments, `R` results.
pub record Sql (S T Q R : Type 0) : Type 0 where
  pub begin_tx : Exec S T
  pub commit : T → Exec S (Unit {0})
  pub rollback : T → Exec S (Unit {0})
  pub exec : Q → Exec S R
  pub exec_in : T → Q → Exec S R

-- how a function ends
pub data Ended : Type 0 where
  finished : Return (Unit {0}) → Ended
  panicked : String → Ended

-- `Handle`, a nil pointer included: is there a pool?
pub record Handle : Type 0 where
  pub has_raw : Bool

abbrev pub rollback_failed : GoError → GoError → GoError
rollback_failed e re = joined e (wrapped "事务回滚失败: " re "")

abbrev pub not_begun : GoError → Ended
not_begun e = finished (err (wrapped "开启事务失败: " e ""))

module _ {S : Type 0} where
  abbrev pub after_rollback : GoError → Return (Unit {0}) × S → Ended × S
  after_rollback e (ok u, s) = (finished (err e), s)
  after_rollback e (err re, s) =
      (finished (err (if is re tx_done then e else rollback_failed e re)), s)

  abbrev pub after_commit : Return (Unit {0}) × S → Ended × S
  after_commit (ok u, s) = (finished (ok tt), s)
  after_commit (err e, s) = (finished (err (wrapped "提交事务失败: " e "")), s)

module _ {S T Q R : Type 0} (sql : Sql S T Q R) where
  -- `Handle.ExecContext`, and the other two alike
  unfoldable pub exec_context : Handle → Option T → Q → Exec S R
  exec_context h (some tx) q s = sql.exec_in tx q s
  exec_context h none q s =
      if h.has_raw then sql.exec q s else (err (sentinel handle_uninitialized), s)

  -- `Within` once the function has ended
  unfoldable pub close : T → Ended × S → Ended × S
  unfolding is
  close tx (panicked v, s) = (panicked v, (sql.rollback tx s).1)
  close tx (finished (err e), s) = after_rollback e (sql.rollback tx s)
  close tx (finished (ok u), s) = after_commit (sql.commit tx s)

  unfoldable pub begun : (Option T → S → Ended × S) → Return T × S → Ended × S
  unfolding close
  begun fn (err e, s) = (not_begun e, s)
  begun fn (ok tx, s) = close tx (fn (some tx) s)

  -- `Handle.Within` with a function that is there
  unfoldable pub within_fn : Handle → Option T → (Option T → S → Ended × S) → S → Ended × S
  unfolding begun
  within_fn h (some tx) fn s = fn (some tx) s
  within_fn h none fn s =
      if h.has_raw
      then begun fn (sql.begin_tx s)
      else (not_begun (sentinel handle_uninitialized), s)

  -- `Handle.Within`
  unfoldable pub within : Handle → Option T → Option (Option T → S → Ended × S) → S → Ended × S
  unfolding within_fn
  within h ctx none s = (finished (err (plain "db: Within 需要非空的事务函数")), s)
  within h ctx (some fn) s = within_fn h ctx fn s
