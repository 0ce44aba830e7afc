-- ===== src/Db/Affected.antt =====
-- db/affected.go: what is made of the number of rows that a write affected. The logging of the
-- compatible mode is left out.
use acat_go_common.Common.{String, Option, none, some, ◌==◌, if◌then◌else◌}
use acat_go_common.Common.Int.{ℤ, pos, ltb_ℤ}
use acat_go_common.Common.Text.{show_int}
use acat_go_common.Apperr.{GoError, sentinel, write_not_applied, wrapped}
use Prim.Native.String.{◌++◌}

pub record WriteFact : Type 0 where
  pub service : String
  pub operation : String
  pub entity : String
  pub id : String
  pub expected_version : Option ℤ
  pub affected : ℤ

abbrev pub semantic_or : Option GoError → GoError
semantic_or none = sentinel write_not_applied
semantic_or (some e) = e

-- the text that names the target
unfoldable pub target : WriteFact → String
target fact =
    let row = if fact.id == "" then fact.entity else fact.entity ++ (" id=" ++ fact.id) in
    if fact.operation == "" then row else fact.operation ++ (" " ++ row)

-- `requireWrite`; `none` is a nil error.
unfoldable pub require_write : WriteFact → Option GoError → Option GoError
unfolding target show_int
require_write fact semantic =
    if ltb_ℤ (pos 0) fact.affected
    then none
    else some (
        wrapped "" (semantic_or semantic)
          (": " ++ (target fact ++ (" affected=" ++ show_int fact.affected))))

unfoldable pub require_affected : WriteFact → Option GoError → Option GoError
unfolding require_write
require_affected fact target_missing = require_write fact target_missing

unfoldable pub require_updated : WriteFact → Option GoError → Option GoError
unfolding require_write
require_updated fact conflict = require_write fact conflict
