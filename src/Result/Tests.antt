-- ===== src/Result/Tests.antt =====
-- Envelopes and paging at concrete inputs.
use acat_go_common.Common.{◌≡◌, ◌≢◌, ◌↔◌, String, arith}
use acat_go_common.Common.Int.{pos, ◌+ℤ◌}
use acat_go_common.Result.{fail_code, offset}
use acat_go_common.Result.Envelope.{IsConsistent, fail_code-IsConsistent}
use acat_go_common.Result.Paging.{offset_tiles}

fail_code-IsConsistent_test :
    IsConsistent (fail_code {T = String} (pos 0) "broken") ↔ (pos 0 ≢ pos 0)
fail_code-IsConsistent_test = fail_code-IsConsistent String (pos 0) "broken"

offset_tiles_example :
    (offset (pos 1) (pos 20) ≡ pos 0)
    × (offset (pos 4) (pos 20) ≡ offset (pos 3) (pos 20) +ℤ pos 20)
offset_tiles_example = offset_tiles 3 20 (omega arith) (omega arith) (omega arith)
