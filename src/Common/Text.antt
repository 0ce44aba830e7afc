-- ===== src/Common/Text.antt =====
-- What the source uses of Go's `strings`, `unicode` and `fmt`, over the characters of a text.
pub mod Trim
pub mod Trimmed
pub mod Decimal
pub mod Atoi
pub mod Cut
use Prim.Native.Nat.{ℕ, zero, suc, ◌+◌, ◌/◌, ◌%◌}
use Prim.Native.Char.{code}
use Prim.Native.String.{String, [], ◌∷◌, ◌++◌}
use mathlib.Core.Path.{◌≡◌, refl}
use mathlib.Core.Bool.{Bool, true, false, ◌&&◌, ◌||◌}
use mathlib.Core.Option.{Option, none, some}
use acat_go_common.Common.Tests.{leb, ltb, nat_eq, if◌then◌else◌}
use acat_go_common.Common.Int.{ℤ, pos, negsuc}

-- `unicode.IsSpace`
unfoldable pub is_space : ℕ → Bool
is_space c =
    leb 9 c && leb c 13
    || nat_eq c 32
    || nat_eq c 0x85
    || nat_eq c 0xa0
    || nat_eq c 0x1680
    || leb 0x2000 c && leb c 0x200a
    || nat_eq c 0x2028
    || nat_eq c 0x2029
    || nat_eq c 0x202f
    || nat_eq c 0x205f
    || nat_eq c 0x3000

unfoldable pub trim_left : String → String
unfolding is_space
trim_left [] = []
trim_left (c ∷ s) = if is_space (code c) then trim_left s else c ∷ s

-- Is every character white space, so that trimming leaves nothing?
unfoldable pub is_blank : String → Bool
unfolding is_space
is_blank [] = true
is_blank (c ∷ s) = is_space (code c) && is_blank s

unfoldable pub trim_right : String → String
unfolding is_blank is_space
trim_right [] = []
trim_right (c ∷ s) = let rest = c ∷ trim_right s in if is_blank (c ∷ s) then [] else rest

-- `strings.TrimSpace`
unfoldable pub trim_space : String → String
unfolding trim_left trim_right
trim_space s = trim_right (trim_left s)

abbrev pub digit : ℕ → String
digit zero = "0"
digit (suc zero) = "1"
digit (suc (suc zero)) = "2"
digit (suc (suc (suc zero))) = "3"
digit (suc (suc (suc (suc zero)))) = "4"
digit (suc (suc (suc (suc (suc zero))))) = "5"
digit (suc (suc (suc (suc (suc (suc zero)))))) = "6"
digit (suc (suc (suc (suc (suc (suc (suc zero))))))) = "7"
digit (suc (suc (suc (suc (suc (suc (suc (suc zero)))))))) = "8"
digit _ = "9"

-- The fuel is more than the number of digits.
unfoldable pub show_fuel : ℕ → ℕ → String
show_fuel zero n = ""
show_fuel (suc f) n =
    let longer = show_fuel f (n / 10) ++ digit (n % 10) in if ltb n 10 then digit n else longer

unfoldable pub show_nat : ℕ → String
unfolding show_fuel
show_nat n = show_fuel (suc n) n

-- `%d`
unfoldable pub show_int : ℤ → String
unfolding show_nat
show_int (pos n) = show_nat n
show_int (negsuc n) = "-" ++ show_nat (suc n)

-- `strings.ReplaceAll(s, "-", "")`
unfoldable pub drop_hyphens : String → String
drop_hyphens [] = []
drop_hyphens (c ∷ s) = let rest = drop_hyphens s in if nat_eq (code c) b'-' then rest else c ∷ rest

-- What is left of `s` behind the prefix `p`, if it starts with `p`.
unfoldable pub after_prefix : String → String → Option String
after_prefix [] s = some s
after_prefix (c ∷ p) [] = none
after_prefix (c ∷ p) (d ∷ s) = if nat_eq (code c) (code d) then after_prefix p s else none

-- `strings.TrimPrefix(s, p)`
unfoldable pub trim_prefix : String → String → String
unfolding after_prefix
trim_prefix s p = elim (after_prefix p s) [ none ↦ s | some rest ↦ rest ]

-- `strings.ToLower` as far as a comparison with an ASCII text can see: besides A to Z, two other
-- letters have an ASCII lower case.
lower_code : ℕ → ℕ
lower_code c =
    if leb b'A' c && leb c b'Z'
    then c + 32
    else if nat_eq c 0x212a
    then b'k'
    else if nat_eq c 0x130
    then b'i'
    else c

-- Is the lower case of `s` the ASCII text `t`?
unfoldable pub lower_is : String → String → Bool
unfolding lower_code
lower_is [] [] = true
lower_is (c ∷ s) (d ∷ t) = nat_eq (lower_code (code c)) (code d) && lower_is s t
lower_is _ _ = false

shows : (show_int (pos 40901) ≡ "40901") × (show_int (negsuc 9) ≡ "-10")
unfolding show_int
shows = (refl, refl)

trims : trim_space "\t a b \n" ≡ "a b"
unfolding trim_space
trims = refl
