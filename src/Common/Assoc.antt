-- ===== src/Common/Assoc.antt =====
-- Go maps with string keys as association lists: the order of entries is never read.
use Prim.Native.String.{String}
use mathlib.Core.Path.{◌≡◌}
use mathlib.Core.Option.{Option, none, some}
use mathlib.Core.List.{List, [], ◌∷◌}
use native.Mathlib.Omega.{arith}
use text.Mathlib.Text.{◌==◌}
use text.Mathlib.TextEquality.{eq_iff}
use text.Mathlib.TextPositions.{eq_refl}
use acat_go_common.Common.Tests.{if◌then◌else◌}

module _ {ℓ} {V : Type ℓ} where
  -- `delete(entries, key)`
  unfoldable pub remove : String → List (String × V) → List (String × V)
  remove key [] = []
  remove key (entry ∷ entries) =
      let others = remove key entries in if entry.0 == key then others else entry ∷ others

  -- `entries[key] = value`
  unfoldable pub insert : String → V → List (String × V) → List (String × V)
  unfolding remove
  insert key value entries = (key, value) ∷ remove key entries

  unfoldable pub lookup : String → List (String × V) → Option V
  lookup key [] = none
  lookup key (entry ∷ entries) =
      let deeper = lookup key entries in if entry.0 == key then some entry.1 else deeper

  pub lookup-remove :
      (key asked : String) (entries : List (String × V))
      → lookup asked (remove key entries) ≡ (if key == asked then none else lookup asked entries)
  unfolding remove lookup
  lookup-remove key asked [] = ground arith
  lookup-remove key asked (entry ∷ entries) = ground (
    arith,
    lookup-remove key asked entries,
    eq_iff entry.0 key,
    eq_iff entry.0 asked,
    eq_iff key asked,
  )

  pub lookup-insert :
      (key asked : String) (value : V) (entries : List (String × V))
      → lookup asked (insert key value entries)
        ≡ (if key == asked then some value else lookup asked entries)
  unfolding insert lookup
  lookup-insert key asked value entries = ground (arith, lookup-remove key asked entries)

  pub lookup-remove_self :
      (key : String) (entries : List (String × V)) → lookup key (remove key entries) ≡ none
  lookup-remove_self key entries = rw (lookup-remove, eq_refl key)

  pub lookup-insert_self :
      (key : String) (value : V) (entries : List (String × V))
      → lookup key (insert key value entries) ≡ some value
  lookup-insert_self key value entries = rw (lookup-insert, eq_refl key)
