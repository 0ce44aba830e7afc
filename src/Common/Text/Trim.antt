-- ===== src/Common/Text/Trim.antt =====
-- `strings.TrimSpace` on a text with no white space.
use Prim.Native.Char.{code}
use Prim.Native.String.{String, [], ◌∷◌}
use mathlib.Core.Path.{◌≡◌, refl, ap}
use mathlib.Core.Bool.{false}
use acat_go_common.Common.Text.{is_space, trim_left, trim_right, trim_space}

-- no character is white space
abbrev pub HasNoSpace : String → Type 0
HasNoSpace [] = Unit
HasNoSpace (c ∷ s) = (is_space (code c) ≡ false) × HasNoSpace s

trim_right-HasNoSpace : (s : String) → HasNoSpace s → trim_right s ≡ s
unfolding trim_right
trim_right-HasNoSpace [] h = refl
trim_right-HasNoSpace (c ∷ s) (p, h) = rw p (ap (λ t. c ∷ t) (trim_right-HasNoSpace s h))

trim_left-HasNoSpace : (s : String) → HasNoSpace s → trim_left s ≡ s
unfolding trim_left
trim_left-HasNoSpace [] h = refl
trim_left-HasNoSpace (c ∷ s) (p, h) = rw p

pub trim_space-HasNoSpace : (s : String) → HasNoSpace s → trim_space s ≡ s
unfolding trim_space
trim_space-HasNoSpace s h = rw (trim_left-HasNoSpace s h) (trim_right-HasNoSpace s h)
