-- ===== src/Satoken/Logic/Number.antt =====
-- `parseInt64` of satoken/logic.go: `fmt.Sscanf` with `%d` reads a sign and the digits behind it,
-- and leaves the rest of the text. The error is only looked for, so its text is not modelled closely.
pub mod RoundTrip
use acat_go_common.Common.{
  ℕ, ◌+◌, ◌*◌, ◌-◌, String, ◌&&◌, Option, none, some, leb, ltb, nat_eq, if◌then◌else◌,
}
use acat_go_common.Common.Int.{ℤ, pos, negsuc}
use acat_go_common.Common.Text.{trim_space}
use acat_go_common.Apperr.{plain}
use acat_go_common.Exec.{Return, ok, err}
use Prim.Native.Char.{code}
use Prim.Native.String.{[], ◌∷◌, ◌++◌}

-- the digits from `n` on
unfoldable pub read_more : ℕ → String → ℕ
read_more n [] = n
read_more n (c ∷ s) =
    let k = code c in
    let more = read_more (n * 10 + (k - 48)) s in if leb 48 k && leb k 57 then more else n

-- at least one digit
unfoldable pub read_digits : String → Option ℕ
unfolding read_more
read_digits [] = none
read_digits (c ∷ s) =
    if leb 48 (code c) && leb (code c) 57 then some (read_more (code c - 48) s) else none

failed : String → Return ℤ
failed raw = err (plain ("satoken: 解析整数失败 " ++ raw))

-- the value, if it fits in an int64
pub positive : String → Option ℕ → Return ℤ
unfolding failed
positive raw none = failed raw
positive raw (some n) = if ltb n 9_223_372_036_854_775_808 then ok (pos n) else failed raw

pub negative : String → Option ℕ → Return ℤ
unfolding failed
negative raw none = failed raw
negative raw (some n) =
    if nat_eq n 0
    then ok (pos 0)
    else if leb n 9_223_372_036_854_775_808
    then ok (negsuc (n - 1))
    else failed raw

pub read_signed : String → String → Return ℤ
unfolding positive negative read_digits
read_signed raw [] = positive raw none
read_signed raw (c ∷ s) =
    if nat_eq (code c) b'-'
    then negative raw (read_digits s)
    else if nat_eq (code c) b'+'
    then positive raw (read_digits s)
    else positive raw (read_digits (c ∷ s))

unfoldable pub parse_int64 : String → Return ℤ
unfolding read_signed
parse_int64 raw = read_signed raw (trim_space raw)
