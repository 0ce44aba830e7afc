-- ===== src/Result.antt =====
-- result/result.go: the response envelope and paging. `int` and `int64` are signed integers;
-- `wrap64` stands where the source multiplies.
pub mod Envelope
pub mod Paging
mod Tests
use acat_go_common.Common.{String, Bool, true, false, Option, none, some, List, if◌then◌else◌}
use acat_go_common.Common.Int.{ℤ, pos, ◌-ℤ◌, ◌*ℤ◌, ltb_ℤ, eqb_ℤ, wrap64}

-- `none` is the `nil` of `Result[any]`.
pub record Result {ℓ} (T : Type ℓ) : Type ℓ where
  pub code : ℤ
  pub message : String
  pub body : Option T
  pub success : Bool

module _ {ℓ} {T : Type ℓ} where
  unfoldable pub ok_result : T → Result T
  ok_result x = record { code = pos 0; message = "OK"; body = some x; success = true }

  unfoldable pub ok_message : String → T → Result T
  ok_message message x = record { code = pos 0; message = message; body = some x; success = true }

  unfoldable pub fail : String → Result T
  fail message = record { code = pos 1; message = message; body = none; success = false }

  unfoldable pub fail_code : ℤ → String → Result T
  fail_code code message = record { code = code; message = message; body = none; success = false }

  unfoldable pub is_success : Result T → Bool
  is_success r = eqb_ℤ r.code (pos 0)

-- `none` is the null of a plain page.
pub record PageData {ℓ} (T : Type ℓ) : Type ℓ where
  pub total : ℤ
  pub head_node_total : Option ℤ
  pub page_index : ℤ
  pub page_size : ℤ
  pub list : List T

module _ {ℓ} {T : Type ℓ} where
  unfoldable pub new_page_data : List T → ℤ → ℤ → ℤ → PageData T
  new_page_data list total page_index page_size = record {
    total = total;
    head_node_total = none;
    page_index = page_index;
    page_size = page_size;
    list = list;
  }

  unfoldable pub new_tree_page_data : List T → ℤ → ℤ → ℤ → ℤ → PageData T
  unfolding new_page_data
  new_tree_page_data list total head_node_total page_index page_size =
      record (new_page_data list total page_index page_size) {
        head_node_total = some head_node_total;
      }

abbrev pub default_page_index : ℤ
default_page_index = pos 1

abbrev pub default_page_size : ℤ
default_page_size = pos 10

abbrev pub max_page_size : ℤ
max_page_size = pos 100

abbrev at_least_one : ℤ → ℤ → ℤ
at_least_one n default = if ltb_ℤ n (pos 1) then default else n

-- The three `if`s run in turn.
unfoldable pub normalize_page : ℤ → ℤ → ℤ × ℤ
normalize_page page_index page_size =
    let index = at_least_one page_index default_page_index in
    let size = at_least_one page_size default_page_size in
    (index, if ltb_ℤ max_page_size size then max_page_size else size)

unfoldable pub offset : ℤ → ℤ → ℤ
offset page_index page_size =
    let index = at_least_one page_index default_page_index in
    let size = at_least_one page_size default_page_size in wrap64 ((index -ℤ pos 1) *ℤ size)
