-- ===== src/Common/Text/Trimmed.antt =====
-- Trimming white space twice is trimming it once.
use Prim.Native.Char.{Char, code}
use Prim.Native.String.{String, [], ◌∷◌}
use mathlib.Core.Path.{◌≡◌, refl, sym, ap, ◌∙◌}
use mathlib.Core.Logic.{inl, inr}
use mathlib.Core.Bool.{true, false, ◌&&◌}
use acat_go_common.Common.Tests.{Bool-cases}
use acat_go_common.Common.Text.{is_space, is_blank, trim_left, trim_right, trim_space}

is_blank-trim_right : (s : String) → is_blank (trim_right s) ≡ is_blank s
unfolding is_blank trim_right
is_blank-trim_right [] = refl
is_blank-trim_right (c ∷ s) =
    let ih = is_blank-trim_right s in
    elim (Bool-cases (is_blank (c ∷ s))) [
      | inl e ↦ rw (trim_right, e)
      | inr e ↦ rw (trim_right, e) (ap (λ b. is_space (code c) && b) ih ∙ e)
    ]

is_blank-same : (c : Char) (s : String) → is_blank (c ∷ trim_right s) ≡ is_blank (c ∷ s)
unfolding is_blank
is_blank-same c s = ap (λ b. is_space (code c) && b) (is_blank-trim_right s)

trim_right_nil : trim_right [] ≡ []
unfolding trim_right
trim_right_nil = refl

trim_left_filled : (c : Char) (s : String) → is_space (code c) ≡ false → trim_left (c ∷ s) ≡ c ∷ s
unfolding trim_left
trim_left_filled c s e = rw (trim_left, e)

filled_not_blank : (c : Char) (s : String) → is_space (code c) ≡ false → is_blank (c ∷ s) ≡ false
unfolding is_blank
filled_not_blank c s e = rw e

trim_right_filled :
    (c : Char) (s : String) → is_blank (c ∷ s) ≡ false → trim_right (c ∷ s) ≡ c ∷ trim_right s
unfolding trim_right
trim_right_filled c s e = rw (trim_right, e)

trim_right_blank : (c : Char) (s : String) → is_blank (c ∷ s) ≡ true → trim_right (c ∷ s) ≡ []
unfolding trim_right
trim_right_blank c s e = rw (trim_right, e)

trim_right-twice : (s : String) → trim_right (trim_right s) ≡ trim_right s
trim_right-twice [] = ap trim_right trim_right_nil
trim_right-twice (c ∷ s) = elim (Bool-cases (is_blank (c ∷ s))) [
  | inl e ↦ let empty = trim_right_blank c s e in ap trim_right empty ∙ trim_right_nil ∙ sym empty
  | inr e ↦
      let step = trim_right_filled c s e in
      ap trim_right step
      ∙ trim_right_filled c (trim_right s) (kept c s e)
      ∙ ap (λ t. c ∷ t) (trim_right-twice s)
      ∙ sym step
]
  where
    kept : (c : Char) (s : String) → is_blank (c ∷ s) ≡ false → is_blank (c ∷ trim_right s) ≡ false
    kept c s e = is_blank-same c s ∙ e

-- the first character is no white space
abbrev StartsFilled : String → Type 0
StartsFilled [] = Unit
StartsFilled (c ∷ s) = is_space (code c) ≡ false

trim_left-StartsFilled : (s : String) → StartsFilled (trim_left s)
unfolding trim_left
trim_left-StartsFilled [] = tt
trim_left-StartsFilled (c ∷ s) = elim (Bool-cases (is_space (code c))) [
  | inl e ↦ rw (trim_left, e) (trim_left-StartsFilled s)
  | inr e ↦ rw (trim_left, e) e
]

trim_left-trim_right : (s : String) → StartsFilled s → trim_left (trim_right s) ≡ trim_right s
trim_left-trim_right [] h = unfold trim_left trim_right in refl
trim_left-trim_right (c ∷ s) h =
    let step = trim_right_filled c s (filled_not_blank c s h) in
    ap trim_left step ∙ trim_left_filled c (trim_right s) h ∙ sym step

-- A trimmed text is not changed by trimming it.
pub trim_space-twice : (s : String) → trim_space (trim_space s) ≡ trim_space s
unfolding trim_space
trim_space-twice s =
    ap trim_right (trim_left-trim_right (trim_left s) (trim_left-StartsFilled s))
    ∙ trim_right-twice (trim_left s)
