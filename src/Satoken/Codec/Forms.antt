-- ===== src/Satoken/Codec/Forms.antt =====
-- satoken/session_codec.go: the forms of a list in the data map: Jackson's `["class", [...]]`, the
-- older `{"@class": …, "@items": [...]}` and the bare list.
use acat_go_common.Common.{◌≡◌, refl, ap, ◌∙◌, String, false, Option, List, [], ◌∷◌, ◌==◌}
use acat_go_common.Common.Assoc.{lookup-insert_self}
use acat_go_common.Exec.{ok}
use acat_go_common.Satoken.Value.{Value, Values, strings, items, object, end, entry, only_strings}
use acat_go_common.Satoken.Session.{Session, get, set, string_list}
use acat_go_common.Satoken.Json.{
  Json, jstr, arr, obj, no_json, json, no_field, field, strings_json, any_json, read_field,
  read_items, has_key,
}
use acat_go_common.Satoken.Codec.{as_values, tagged, wrap_value}
use acat_go_common.Satoken.Codec.Decode.{narrow, decode_collection, decode_data_value}
use acat_go_common.Satoken.Codec.Free.{
  AllFree, decode_anys-values_json, strings_json-as_values, as_values-AllFree,
}
use acat_go_common.Satoken.Codec.Stable.{
  Stable, narrow-as_values, decode_data_value-tagged, decode_data_value-any_json,
}

-- how a list of codes may stand in the data map
pub data Form (codes : List String) : Json → Type 0 where
  wrapper :
      (class : String)
      → Form codes (arr (json (jstr class) (json (arr (strings_json codes)) no_json)))
  property :
      (class : String)
      → Form codes
          (obj (field "@class" (jstr class) (field "@items" (arr (strings_json codes)) no_field)))
  bare : Form codes (arr (strings_json codes))

only_strings-as_values : (ss : List String) → only_strings (as_values ss) ≡ ss
unfolding only_strings as_values
only_strings-as_values [] = refl
only_strings-as_values (s ∷ ss) = ap (λ t. s ∷ t) (only_strings-as_values ss)

pub string_list-strings :
    (s : Session) (key : String) (ss : List String) → string_list (set s key (strings ss)) key ≡ ss
unfolding string_list get set
string_list-strings s key ss = rw (lookup-insert_self key (strings ss) s.data_map)

string_list-items :
    (s : Session) (key : String) (ss : List String)
    → string_list (set s key (items (as_values ss))) key ≡ ss
unfolding string_list get set
string_list-items s key ss =
    rw (lookup-insert_self key (items (as_values ss)) s.data_map) (only_strings-as_values ss)

module _ (float64 : String → Option String) where
  property_decoded :
      (class : String) (ss : List String)
      → decode_data_value float64
          (obj (field "@class" (jstr class) (field "@items" (arr (strings_json ss)) no_field)))
        ≡ ok (items (as_values ss))
  unfolding decode_data_value decode_collection has_key read_field read_items
  property_decoded class ss = rw (
    strings_json-as_values ss,
    decode_anys-values_json float64 (as_values ss) (as_values-AllFree float64 ss),
  )

  wrapper_decoded :
      (class : String) (ss : List String)
      → decode_data_value float64 (arr (json (jstr class) (json (arr (strings_json ss)) no_json)))
        ≡ ok (strings ss)
  unfolding any_json
  wrapper_decoded class ss = rw (strings_json-as_values ss) (
      decode_data_value-tagged float64 class (as_values ss) (as_values-AllFree float64 ss)
      ∙ ap ok (narrow-as_values ss))

  bare_decoded :
      (ss : List String) → decode_data_value float64 (arr (strings_json ss)) ≡ ok (strings ss)
  unfolding Stable any_json
  bare_decoded ss = decode_data_value-any_json float64 (strings ss) tt

  -- In each form a list of codes decodes, and the session that gets the value under a key reads the
  -- codes from that key.
  pub codes_decode_alike :
      (codes : List String) (j : Json)
      → Form codes j
      → (s : Session) (key : String)
      → (v : Value) × (decode_data_value float64 j ≡ ok v) × (string_list (set s key v) key ≡ codes)
  codes_decode_alike codes _ (wrapper class) s key =
      (strings codes, wrapper_decoded class codes, string_list-strings s key codes)
  codes_decode_alike codes _ (property class) s key =
      (items (as_values codes), property_decoded class codes, string_list-items s key codes)
  codes_decode_alike codes _ bare s key =
      (strings codes, bare_decoded codes, string_list-strings s key codes)

  -- A list of a text and a list, inside an object of the data map, comes back without its text:
  -- only a list that is itself a value of the data map is wrapped when it is printed.
  pub nested_pair_is_cut :
      (key text : String) (inner : Values)
      → (key == "@class") ≡ false
      → (key == "@items") ≡ false
      → AllFree float64 inner
      → decode_data_value float64
          (any_json (wrap_value (object (entry key (tagged text (items inner)) end))))
        ≡ ok (object (entry key (narrow inner) end))
  unfolding decode_data_value wrap_value any_json has_key
  nested_pair_is_cut key text inner c i h =
      let cut = decode_data_value-tagged float64 text inner h in rw (c, i, cut)
