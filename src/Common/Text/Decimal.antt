-- ===== src/Common/Text/Decimal.antt =====
-- Decimal printing: what the printed digits are.
use Prim.Native.Nat.{ℕ, zero, suc, ◌/◌, ◌%◌, ◌≤◌}
use Prim.Native.Char.{code}
use Prim.Native.String.{String, [], ◌∷◌, ◌++◌}
use native.Mathlib.Omega.{arith}
use text.Mathlib.TextLemmas.{nil-append, cons-append}
use acat_go_common.Common.Tests.{ltb, Bool-cases}
use mathlib.Core.Logic.{inl, inr}
use acat_go_common.Common.Text.{digit, show_fuel}

-- every character is a decimal digit
abbrev pub IsDecimal : String → Type 0
IsDecimal [] = Unit
IsDecimal (c ∷ s) = (48 ≤ code c) × (code c ≤ 57) × IsDecimal s

pub IsDecimal-append : (s t : String) → IsDecimal s → IsDecimal t → IsDecimal (s ++ t)
IsDecimal-append [] t h k = rw nil-append k
IsDecimal-append (c ∷ s) t (p, q, h) k = rw cons-append (p, q, IsDecimal-append s t h k)

pub digit-IsDecimal : (d : ℕ) → IsDecimal (digit d)
digit-IsDecimal zero = omega arith
digit-IsDecimal (suc zero) = omega arith
digit-IsDecimal (suc (suc zero)) = omega arith
digit-IsDecimal (suc (suc (suc zero))) = omega arith
digit-IsDecimal (suc (suc (suc (suc zero)))) = omega arith
digit-IsDecimal (suc (suc (suc (suc (suc zero))))) = omega arith
digit-IsDecimal (suc (suc (suc (suc (suc (suc zero)))))) = omega arith
digit-IsDecimal (suc (suc (suc (suc (suc (suc (suc zero))))))) = omega arith
digit-IsDecimal (suc (suc (suc (suc (suc (suc (suc (suc zero)))))))) = omega arith
digit-IsDecimal _ = omega arith

pub show_fuel-IsDecimal : (f n : ℕ) → IsDecimal (show_fuel f n)
unfolding show_fuel
show_fuel-IsDecimal zero n = tt
show_fuel-IsDecimal (suc f) n = elim (Bool-cases (ltb n 10)) [
  | inl small ↦ rw small (digit-IsDecimal n)
  | inr large ↦ rw large (
      IsDecimal-append (show_fuel f (n / 10)) (digit (n % 10)) (show_fuel-IsDecimal f (n / 10))
        (digit-IsDecimal (n % 10)))
]
