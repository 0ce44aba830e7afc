-- ===== src/Mysqlx/Statements.antt =====
-- mysqlx/mysqlx.go: the statements that are put together for a table, and their execution.
use acat_go_common.Common.{
  ℕ, zero, suc, String, Bool, true, false, ◌&&◌, ◌||◌, Option, none, some, List, [], ◌∷◌, ◌==◌,
  nat_eq, if◌then◌else◌,
}
use acat_go_common.Common as C
use acat_go_common.Common.Int.{ℤ, pos}
use acat_go_common.Apperr.{plain, wrapped}
use acat_go_common.Exec.{Return, Exec, ok, err, try, pure, raise, lift, ◌>>=◌}
use Prim.Native.String.{◌++◌}
use acat_go_common.Mysqlx.{SqlValue, text, int}

pub record Field : Type 0 where
  pub column : String
  pub value : Option SqlValue

-- `strings.Join`
unfoldable pub join : String → List String → String
join sep [] = ""
join sep (s ∷ []) = s
join sep (s ∷ t ∷ ts) = s ++ (sep ++ join sep (t ∷ ts))

-- The columns that are inserted, and their values.
unfoldable pub inserted : List Field → List (String × SqlValue)
inserted [] = []
inserted (f ∷ fs) = elim f.value [ none ↦ inserted fs | some v ↦ (f.column, v) ∷ inserted fs ]

-- The columns of `SET`, and their values: neither the key nor the flag of logical deletion.
unfoldable pub updated : List Field → List (String × SqlValue)
updated [] = []
updated (f ∷ fs) = elim f.value [
  | none ↦ updated fs
  | some v ↦
      let rest = updated fs in
      if f.column == "id" || f.column == "is_deleted" then rest else (f.column, v) ∷ rest
]

abbrev pub columns : List (String × SqlValue) → List String
columns kept = C.map (λ e. e.0) kept

abbrev pub values : List (String × SqlValue) → List (Option SqlValue)
values kept = C.map (λ e. some e.1) kept

abbrev pub Statement : Type 0
Statement = String × List (Option SqlValue)

-- the statement of `Insert`, if a column is left
unfoldable pub insert_statement : String → List (String × SqlValue) → Option Statement
unfolding join
insert_statement table [] = none
insert_statement table (e ∷ es) =
    let kept = e ∷ es in
    some (
      "INSERT INTO "
          ++ (table
              ++ (" ("
                  ++ (join ", " (columns kept)
                      ++ (") VALUES (" ++ (join ", " (C.map (λ _. "?") kept) ++ ")"))))),
      values kept,
    )

abbrev version_set : Option ℤ → List String
version_set none = []
version_set (some v) = "version = version + 1" ∷ []

abbrev version_where : Option ℤ → String
version_where none = ""
version_where (some v) = " AND version = ?"

abbrev pub version_args : Option ℤ → List (Option SqlValue)
version_args none = []
version_args (some v) = some (int v) ∷ []

-- the assignments behind `SET`
unfoldable pub assignments : List (String × SqlValue) → Option ℤ → List String
assignments kept version = C.◌++◌ (C.map (λ e. e.0 ++ " = ?") kept) (version_set version)

abbrev pub update_text : String → List String → Option ℤ → String
update_text table sets version =
    "UPDATE "
    ++ (table
        ++ (" SET "
            ++ (join ", " sets ++ (" WHERE id = ? AND is_deleted = 0" ++ version_where version))))

-- the statement of `Update`, if there is something to set
unfoldable pub update_statement :
    String → String → List (String × SqlValue) → Option ℤ → Option Statement
unfolding assignments join
update_statement table id kept version = elim (assignments kept version) [
  | [] ↦ none
  | s ∷ ss ↦ some (
    update_text table (s ∷ ss) version,
    C.◌++◌ (values kept) (some (text id) ∷ version_args version),
  )
]

-- `DBTX`: a result is its `RowsAffected`; a count is the one column of the row.
pub record Dbtx (S : Type 0) : Type 0 where
  pub exec_context : String → List (Option SqlValue) → Exec S (Return ℤ)
  pub count_context : String → List (Option SqlValue) → Exec S ℤ

module _ {S : Type 0} (tx : Dbtx S) where
  abbrev affected_of : Return ℤ → Return ℤ
  affected_of (ok n) = ok n
  affected_of (err e) = err (wrapped "读取影响行数失败: " e "")

  unfoldable pub exec_affected : String → List (Option SqlValue) → Exec S ℤ
  unfolding ◌>>=◌
  exec_affected query args = do result ← tx.exec_context query args; lift (affected_of result)

  unfoldable pub insert : String → List Field → Exec S (Unit {0})
  unfolding insert_statement inserted try
  insert table fields = elim (insert_statement table (inserted fields)) [
    | none ↦ raise (plain ("mysqlx.Insert: " ++ (table ++ " 没有可写入的列")))
    | some (query, args) ↦
        try (tx.exec_context query args) (λ _. pure tt)
          (λ e. raise (wrapped ("插入 " ++ (table ++ " 失败: ")) e ""))
  ]

  unfoldable pub update : String → String → List Field → Option ℤ → Exec S ℤ
  unfolding update_statement updated exec_affected
  update table id fields version = elim (update_statement table id (updated fields) version) [
    | none ↦ pure (pos 0)
    | some (query, args) ↦ exec_affected query args
  ]

  unfoldable pub update_column : String → String → String → Option SqlValue → Exec S ℤ
  unfolding exec_affected
  update_column table id column value =
      exec_affected
        ("UPDATE " ++ (table ++ (" SET " ++ (column ++ " = ? WHERE id = ? AND is_deleted = 0"))))
        (value ∷ some (text id) ∷ [])

  unfoldable pub delete : String → String → Exec S ℤ
  unfolding exec_affected
  delete table id =
      exec_affected ("UPDATE " ++ (table ++ " SET is_deleted = 1 WHERE id = ? AND is_deleted = 0"))
        (some (text id) ∷ [])

  unfoldable pub count_rows : String → List (Option SqlValue) → Exec S ℤ
  count_rows query args = tx.count_context query args
