-- ===== src/Mysqlx/Tests.antt =====
-- Statements at concrete inputs.
use acat_go_common.Common.{
  ◌≡◌, refl, ◌+◌, String, none, some, List, [], ◌∷◌, length, All, if◌then◌else◌,
}
use acat_go_common.Common.Int.{pos, negsuc}
use acat_go_common.Apperr.{GoError, mysql, plain, no_rows, is}
use acat_go_common.Exec.{ok, err, try}
use acat_go_common.Mysqlx.{
  text, is_integrity_violation, wrap_no_rows, placeholders, placeholders_compact, append_limit_args,
  append_limit_comma,
}
use acat_go_common.Mysqlx.Statements.{
  Field, Dbtx, inserted, updated, insert_statement, update_statement, insert, update,
}
use acat_go_common.Mysqlx.Marks.{marks}
use acat_go_common.Mysqlx.Arity.{IsFitting, IsWritable, statements_fit, placeholders_fit}
use acat_go_common.Mysqlx.Violations.{insert_keeps_violation}

abbrev fields : List Field
fields =
    record { column = "id"; value = some (text "7") }
    ∷ record { column = "name"; value = some (text "book") }
    ∷ record { column = "note"; value = none }
    ∷ []

abbrev duplicate : GoError
duplicate = mysql 1062 "Duplicate entry"

-- a connection that keeps its last statement
abbrev failing : Dbtx String
failing = record {
  exec_context = λ query args s. (err duplicate, query);
  count_context = λ query args s. (ok (pos 0), s);
}

insert_text :
    insert_statement "t_book" (inserted fields)
    ≡ some
        ("INSERT INTO t_book (id, name) VALUES (?, ?)", some (text "7") ∷ some (text "book") ∷ [])
unfolding insert_statement inserted
insert_text = refl

update_runs :
    (update failing "t_book" "7" fields (some (pos 3)) "").1
    ≡ "UPDATE t_book SET name = ?, version = version + 1 WHERE id = ? AND is_deleted = 0 AND version = ?"
unfolding update try
update_runs = refl

placeholders_run :
    (placeholders (pos 3) ≡ "?, ?, ?")
    × (placeholders_compact (pos 3) ≡ "?,?,?")
    × (placeholders (negsuc 1) ≡ "")
unfolding placeholders placeholders_compact
placeholders_run = (refl, refl, refl)

statements_fit_example :
    IsFitting (insert_statement "t_book" (inserted fields))
    × IsFitting (update_statement "t_book" "7" (updated fields) (some (pos 3)))
    × All IsWritable (updated fields)
statements_fit_example =
    statements_fit "t_book" "7" fields (some (pos 3)) refl (refl, (refl, (refl, tt)))

placeholders_fit_test :
    (marks (placeholders (pos 2)) ≡ 2)
    × (marks (placeholders_compact (pos 2)) ≡ 2)
    × (marks (append_limit_args "SELECT ?" (pos 5) (pos 0)).0
        ≡ marks "SELECT ?" + length (append_limit_args "SELECT ?" (pos 5) (pos 0)).1)
    × (marks (append_limit_comma "SELECT ?" (pos 5) (pos 0)).0
        ≡ marks "SELECT ?" + length (append_limit_comma "SELECT ?" (pos 5) (pos 0)).1)
placeholders_fit_test = placeholders_fit 2 "SELECT ?" (pos 5) (pos 0)

insert_keeps_violation_test :
    (failure : GoError) × ((insert failing "t_book" fields "").0 ≡ err failure)
    × (is_integrity_violation failure ≡ is_integrity_violation duplicate)
    × ((wrapped_again : GoError) × (wrap_no_rows (some failure) (plain "missing") "read"
          ≡ some wrapped_again)
        × (if is duplicate no_rows
            then wrapped_again ≡ plain "missing"
            else is_integrity_violation wrapped_again ≡ is_integrity_violation duplicate))
insert_keeps_violation_test =
    insert_keeps_violation failing "t_book" "read" fields (plain "missing")
      "INSERT INTO t_book (id, name) VALUES (?, ?)" (some (text "7") ∷ some (text "book") ∷ []) ""
      duplicate insert_text refl
