-- ===== src/Common/Text/Atoi.antt =====
-- `strconv.ParseInt` in base 10 into 64 bits, and `strconv.Atoi` where an int has 64 bits: a sign
-- and at least one digit, nothing else, in range.
use Prim.Native.Nat.{ℕ, ◌+◌, ◌-◌, ◌*◌, ◌^◌}
use Prim.Native.Char.{code}
use Prim.Native.String.{String, [], ◌∷◌}
use mathlib.Core.Bool.{◌&&◌}
use mathlib.Core.Option.{Option, none, some}
use acat_go_common.Common.Tests.{leb, ltb, nat_eq, if◌then◌else◌}
use acat_go_common.Common.Int.{ℤ, pos, negsuc}

-- `n` followed by the digits of a text
unfoldable pub to_number : ℕ → String → Option ℕ
to_number n [] = some n
to_number n (c ∷ s) =
    let k = code c in
    let more = to_number (n * 10 + (k - 48)) s in if leb 48 k && leb k 57 then more else none

unfoldable pub unsigned : String → Option ℕ
unfolding to_number
unsigned [] = none
unsigned (c ∷ s) = to_number 0 (c ∷ s)

abbrev pub as_pos : Option ℕ → Option ℤ
as_pos none = none
as_pos (some n) = if ltb n (2 ^ 63) then some (pos n) else none

abbrev pub as_neg : Option ℕ → Option ℤ
as_neg none = none
as_neg (some n) =
    if nat_eq n 0 then some (pos 0) else if leb n (2 ^ 63) then some (negsuc (n - 1)) else none

unfoldable pub atoi : String → Option ℤ
unfolding unsigned
atoi [] = none
atoi (c ∷ s) =
    if nat_eq (code c) b'-'
    then as_neg (unsigned s)
    else if nat_eq (code c) b'+'
    then as_pos (unsigned s)
    else as_pos (unsigned (c ∷ s))
