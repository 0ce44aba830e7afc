-- ===== src/Db/Tests.antt =====
-- Transactions over a list of rows, and write facts.
use mathlib.Core.Bool.{false≢true}
use acat_go_common.Common.{
  ◌≡◌, refl, sym, ◌∙◌, ap, String, Bool, true, false, Option, none, some, List, [], ◌∷◌,
}
use acat_go_common.Common.Int.{pos}
use acat_go_common.Apperr.{GoError, is, sentinel, not_found, write_not_applied, conflict, tx_done}
use acat_go_common.Exec.{ok, err}
use acat_go_common.Db.{Sql, Ended, finished, panicked, Handle, exec_context, within}
use acat_go_common.Db.Affected.{WriteFact, require_affected, require_updated}
use acat_go_common.Db.Strict.{Answers, strict_checks}
use acat_go_common.Db.Atomic.{
  IsTransactional, Script, stop, statement, nested, run, nothing_durable_inside, within_rolls_back,
  within_keeps_cause,
}

-- the rows that others see, and those of the transaction, while it is open
record Rows : Type 0 where
  seen : List String
  own : List String
  running : Bool

abbrev rows_sql : Sql Rows (Unit {0}) String (Unit {0})
rows_sql = record {
  begin_tx = λ s. (ok tt, record s { own = s.seen; running = true });
  commit = λ tx s. (ok tt, record s { seen = s.own; running = false });
  rollback = λ tx s. (err (sentinel tx_done), record s { own = []; running = false });
  exec = λ q s. (ok tt, record s { seen = q ∷ s.seen });
  exec_in = λ tx q s. (ok tt, record s { own = q ∷ s.own });
}

abbrev visible : Rows → List String
visible s = s.seen

abbrev is_running : Unit {0} → Rows → Bool
is_running tx s = s.running

rows-IsTransactional : IsTransactional rows_sql visible is_running
rows-IsTransactional = record {
  begin_keeps = λ s. refl;
  begin_opens = λ tx s s' e. ap (λ r. r.1.running) (sym e);
  exec_in_keeps = λ tx q s. refl;
  rollback_keeps = λ tx s. refl;
  rollback_ends = λ tx s. refl;
}

abbrev handle : Handle
handle = record { has_raw = true }

abbrev before : Rows
before = record { seen = "old" ∷ []; own = []; running = false }

abbrev begun_rows : Rows
begun_rows = record { seen = "old" ∷ []; own = "old" ∷ []; running = true }

-- a nested transaction that ends well, in one that fails
abbrev failing : Script String (Unit {0})
failing =
    nested (statement "a" (λ r. stop (finished (ok tt))))
      (λ r. statement "b" (λ r'. stop (finished (err (sentinel not_found)))))

-- does a function end without an error?
abbrev ends_well : Ended → Bool
ends_well (finished (ok u)) = true
ends_well (finished (err e)) = false
ends_well (panicked v) = false

failing_fails :
    (run rows_sql handle failing (some tt) begun_rows).0 ≡ finished (err (sentinel not_found))
unfolding run within exec_context
failing_fails = refl

nothing_durable_inside_test :
    visible (run rows_sql handle failing (some tt) begun_rows).1 ≡ visible begun_rows
nothing_durable_inside_test =
    nothing_durable_inside rows_sql rows-IsTransactional handle failing tt begun_rows

within_rolls_back_example :
    (is_running tt (within rows_sql handle none (some (run rows_sql handle failing)) before).1
      ≡ false)
    × (visible (within rows_sql handle none (some (run rows_sql handle failing)) before).1
        ≡ visible before)
within_rolls_back_example =
    within_rolls_back rows_sql rows-IsTransactional handle failing tt before begun_rows refl refl
      (λ e. false≢true (ap ends_well (sym failing_fails ∙ e)))

abbrev lost : Option (Unit {0}) → Rows → Ended × Rows
lost ctx s = (finished (err (sentinel not_found)), s)

not_found_is : is (sentinel not_found) not_found ≡ true
unfolding is
not_found_is = refl

within_keeps_cause_test :
    (e : GoError) × ((within rows_sql handle none (some lost) before).0 ≡ finished (err e))
    × (is e not_found ≡ true)
within_keeps_cause_test =
    within_keeps_cause rows_sql handle lost tt before begun_rows begun_rows (sentinel not_found)
      not_found refl refl refl not_found_is

abbrev no_rows : WriteFact
no_rows = record {
  service = "book";
  operation = "approve";
  entity = "t_order";
  id = "7";
  expected_version = some (pos 3);
  affected = pos 0;
}

abbrev changed : GoError
changed = conflict "changed"

strict_checks_example :
    Answers no_rows.affected changed not_found (require_affected no_rows (some changed))
    × Answers no_rows.affected changed not_found (require_updated no_rows (some changed))
    × Answers no_rows.affected
        (sentinel write_not_applied)
        not_found
        (require_affected no_rows none)
    × Answers no_rows.affected (sentinel write_not_applied) not_found (require_updated no_rows none)
strict_checks_example = strict_checks no_rows changed not_found
