-- ===== src/Common/Text/Cut.antt =====
-- `strings.Cut`.
use Prim.Native.String.{String, [], ◌∷◌}
use mathlib.Core.Option.{Option, none, some}
use acat_go_common.Common.Text.{after_prefix}

-- `strings.Cut` at a separator that is not empty; `strings.Index` finds the same place.
unfoldable pub cut : String → String → Option (String × String)
unfolding after_prefix
cut sep [] = none
cut sep (c ∷ s) = elim (after_prefix sep (c ∷ s)) [
  | some rest ↦ some ("", rest)
  | none ↦ elim (cut sep s) [ none ↦ none | some parts ↦ some (c ∷ parts.0, parts.1) ]
]
