-- ===== src/Satoken/Codec/Stable.antt =====
-- satoken/session_codec.go: values of a session's data map that come back as they were.
use acat_go_common.Common.{◌≡◌, refl, ◌∙◌, String, false, Option, none, some, List, [], ◌∷◌, ◌==◌}
use acat_go_common.Exec.{ok}
use acat_go_common.Satoken.Value.{
  Value, Values, Entries, null, bool, number, str, strings, items, object, nil, cons, end, entry,
}
use acat_go_common.Satoken.Json.{any_json, values_json, entries_json, has_key, arr, from_list}
use acat_go_common.Satoken.Codec.{as_values, wrap_value, wrap_all, tagged}
use acat_go_common.Satoken.Codec.Decode.{
  all_strings, narrow, unwrap, decode_collection, decode_data_value, decode_members,
}
use acat_go_common.Satoken.Codec.Free.{
  Free, AllFree, has_entry_key, has_key-entries_json, decode_anys-values_json,
  strings_json-as_values, all_strings-as_values, as_values-AllFree, unwrap-as_values,
}

pub narrow-as_values : (ss : List String) → narrow (as_values ss) ≡ strings ss
unfolding narrow
narrow-as_values ss = rw (narrow, all_strings-as_values ss)

narrow_mixed : (vs : Values) → all_strings vs ≡ none → narrow vs ≡ items vs
unfolding narrow
narrow_mixed vs a = rw (narrow, a)

module _ (float64 : String → Option String) where
  -- A list that holds no text alone and is not a text with a list behind it; keys that differ and
  -- that neither "@class" nor "@items" is among.
  unfoldable mutual
    unfolding Free has_entry_key all_strings unwrap

    pub Stable : Value → Type 0
    Stable (number t) = float64 t ≡ some t
    Stable (items vs) = AllFree float64 vs × (all_strings vs ≡ none) × (unwrap vs ≡ vs)
    Stable (object es) = StableEntries es
    Stable _ = Unit

    pub StableEntries : Entries → Type 0
    StableEntries end = Unit
    StableEntries (entry k v es) =
        (has_entry_key k es ≡ false)
        × ((k == "@class") ≡ false)
        × ((k == "@items") ≡ false)
        × Stable v
        × StableEntries es

  decode_collection-values_json :
      (vs : Values)
      → AllFree float64 vs
      → decode_collection float64 (arr (values_json vs)) ≡ ok (unwrap vs)
  unfolding decode_collection
  decode_collection-values_json vs h = rw (decode_anys-values_json float64 vs h)

  StableEntries-no_items :
      (es : Entries) → StableEntries es → has_key "@items" (entries_json es) ≡ false
  unfolding Stable any_json has_key
  StableEntries-no_items end h = refl
  StableEntries-no_items (entry k v es) (d, c, i, s, h) = rw (i, StableEntries-no_items es h)

  mutual
    unfolding Stable decode_data_value any_json narrow

    pub decode_data_value-any_json :
        (v : Value) → Stable v → decode_data_value float64 (any_json v) ≡ ok v
    decode_data_value-any_json null h = refl
    decode_data_value-any_json (bool b) h = refl
    decode_data_value-any_json (number t) h = rw h
    decode_data_value-any_json (str s) h = refl
    decode_data_value-any_json (strings ss) h = rw (
      strings_json-as_values ss,
      decode_collection-values_json (as_values ss) (as_values-AllFree float64 ss),
      unwrap-as_values ss,
      narrow-as_values ss,
    )
    decode_data_value-any_json (items vs) (f, a, u) =
        rw (decode_collection-values_json vs f, u, narrow_mixed vs a)
    decode_data_value-any_json (object es) h =
        rw (StableEntries-no_items es h, decode_members-entries_json es h)

    pub decode_members-entries_json :
        (es : Entries) → StableEntries es → decode_members float64 (entries_json es) ≡ ok es
    decode_members-entries_json end h = refl
    decode_members-entries_json (entry k v es) (d, c, i, s, h) = rw (
      c,
      has_key-entries_json k es,
      d,
      decode_data_value-any_json v s,
      decode_members-entries_json es h,
    )

  -- A value of the data map itself: a list is wrapped when it is printed.
  unfoldable pub Kept : Value → Type 0
  unfolding Free all_strings Stable
  Kept (items vs) = AllFree float64 vs × (all_strings vs ≡ none)
  Kept v = Stable v

  pub decode_data_value-tagged :
      (class : String) (vs : Values)
      → AllFree float64 vs
      → decode_data_value float64 (any_json (tagged class (items vs))) ≡ ok (narrow vs)
  unfolding decode_data_value any_json unwrap Free
  decode_data_value-tagged class vs h =
      rw (decode_collection-values_json (cons (str class) (cons (items vs) nil)) (tt, (h, tt)))

  pub decode_data_value-wrap_value :
      (v : Value) → Kept v → decode_data_value float64 (any_json (wrap_value v)) ≡ ok v
  unfolding Kept wrap_value narrow
  decode_data_value-wrap_value (strings ss) h =
      decode_data_value-tagged "java.util.ArrayList" (as_values ss) (as_values-AllFree float64 ss)
      ∙ rw (narrow-as_values ss)
  decode_data_value-wrap_value (items vs) (f, a) =
      decode_data_value-tagged "java.util.ArrayList" vs f ∙ rw (narrow_mixed vs a)
  decode_data_value-wrap_value null h = decode_data_value-any_json null h
  decode_data_value-wrap_value (bool b) h = decode_data_value-any_json (bool b) h
  decode_data_value-wrap_value (number t) h = decode_data_value-any_json (number t) h
  decode_data_value-wrap_value (str s) h = decode_data_value-any_json (str s) h
  decode_data_value-wrap_value (object es) h = decode_data_value-any_json (object es) h

  -- Keys that differ, "@class" not among them, and values that are kept.
  unfoldable pub KeptMap : List (String × Value) → Type 0
  unfolding Kept has_entry_key from_list
  KeptMap [] = Unit
  KeptMap (e ∷ es) =
      (has_entry_key e.0 (from_list es) ≡ false)
      × ((e.0 == "@class") ≡ false)
      × Kept e.1
      × KeptMap es

  has_key-wrap_all :
      (key : String) (es : List (String × Value))
      → has_key key (entries_json (wrap_all es)) ≡ has_entry_key key (from_list es)
  unfolding has_key any_json wrap_all has_entry_key from_list
  has_key-wrap_all key [] = refl
  has_key-wrap_all key (e ∷ es) = rw (has_key-wrap_all key es)

  pub decode_members-wrap_all :
      (es : List (String × Value))
      → KeptMap es
      → decode_members float64 (entries_json (wrap_all es)) ≡ ok (from_list es)
  unfolding KeptMap decode_data_value any_json wrap_all from_list
  decode_members-wrap_all [] h = refl
  decode_members-wrap_all (e ∷ es) (d, c, k, h) = rw (
    c,
    has_key-wrap_all e.0 es,
    d,
    decode_data_value-wrap_value e.1 k,
    decode_members-wrap_all es h,
  )
