-- ===== src/Satoken/Value.antt =====
-- The dynamic values (`any`) of satoken/session_codec.go: a session's login id and data map.
use acat_go_common.Common.{String, Bool, List, [], ◌∷◌}

-- A number is its decimal text, an `int` and a `float64` alike: it is carried and never computed
-- with. `strings` is `[]string`,
-- `items` is `[]any`, `object` is `map[string]any`.
mutual
  pub data Value : Type 0 where
    null : Value
    bool : Bool → Value
    number : String → Value
    str : String → Value
    strings : List String → Value
    items : Values → Value
    object : Entries → Value

  pub data Values : Type 0 where
    nil : Values
    cons : Value → Values → Values

  pub data Entries : Type 0 where
    end : Entries
    entry : String → Value → Entries → Entries

-- The strings of a `[]any`; other elements are skipped.
unfoldable pub only_strings : Values → List String
only_strings nil = []
only_strings (cons (str s) vs) = s ∷ only_strings vs
only_strings (cons _ vs) = only_strings vs
