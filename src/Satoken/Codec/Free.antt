-- ===== src/Satoken/Codec/Free.antt =====
-- satoken/session_codec.go: `any` values that encoding/json reads back as it printed them.
use acat_go_common.Common.{
  ◌≡◌, refl, ap, String, Bool, false, Option, some, List, [], ◌∷◌, ◌||◌, ◌==◌,
}
use acat_go_common.Exec.{ok}
use acat_go_common.Satoken.Value.{
  Value, Values, Entries, null, bool, number, str, strings, items, object, nil, cons, end, entry,
}
use acat_go_common.Satoken.Json.{
  any_json, values_json, entries_json, strings_json, has_key, decode_any, decode_anys,
  decode_entries, from_list, to_list,
}
use acat_go_common.Satoken.Codec.{as_values}
use acat_go_common.Satoken.Codec.Decode.{all_strings, unwrap}

-- Is there an entry with a key?
unfoldable pub has_entry_key : String → Entries → Bool
has_entry_key key end = false
has_entry_key key (entry k v es) = k == key || has_entry_key key es

pub has_key-entries_json :
    (key : String) (es : Entries) → has_key key (entries_json es) ≡ has_entry_key key es
unfolding has_key entries_json has_entry_key
has_key-entries_json key end = refl
has_key-entries_json key (entry k v es) = rw (has_key-entries_json key es)

module _ (float64 : String → Option String) where
  -- numbers that float64 keeps, no `[]string`, and keys that differ
  unfoldable mutual
    unfolding has_entry_key

    pub Free : Value → Type 0
    Free (number t) = float64 t ≡ some t
    Free (strings ss) = ⊥
    Free (items vs) = AllFree vs
    Free (object es) = FreeEntries es
    Free _ = Unit

    pub AllFree : Values → Type 0
    AllFree nil = Unit
    AllFree (cons v vs) = Free v × AllFree vs

    pub FreeEntries : Entries → Type 0
    FreeEntries end = Unit
    FreeEntries (entry k v es) = (has_entry_key k es ≡ false) × Free v × FreeEntries es

  mutual
    unfolding Free decode_any any_json

    pub decode_any-any_json : (v : Value) → Free v → decode_any float64 (any_json v) ≡ ok v
    decode_any-any_json null h = refl
    decode_any-any_json (bool b) h = refl
    decode_any-any_json (number t) h = rw h
    decode_any-any_json (str s) h = refl
    decode_any-any_json (strings ss) h = absurd h
    decode_any-any_json (items vs) h = rw (decode_anys-values_json vs h)
    decode_any-any_json (object es) h = rw (decode_entries-entries_json es h)

    pub decode_anys-values_json :
        (vs : Values) → AllFree vs → decode_anys float64 (values_json vs) ≡ ok vs
    decode_anys-values_json nil h = refl
    decode_anys-values_json (cons v vs) (p, h) =
        rw (decode_any-any_json v p, decode_anys-values_json vs h)

    pub decode_entries-entries_json :
        (es : Entries) → FreeEntries es → decode_entries float64 (entries_json es) ≡ ok es
    decode_entries-entries_json end h = refl
    decode_entries-entries_json (entry k v es) (q, p, h) =
        rw (decode_any-any_json v p, decode_entries-entries_json es h, has_key-entries_json k es, q)

pub to_list-from_list : (es : List (String × Value)) → to_list (from_list es) ≡ es
unfolding to_list from_list
to_list-from_list [] = refl
to_list-from_list (e ∷ es) = ap (λ t. e ∷ t) (to_list-from_list es)

-- A list of texts prints the same as a `[]string` and as a `[]any`.
pub strings_json-as_values : (ss : List String) → strings_json ss ≡ values_json (as_values ss)
unfolding strings_json any_json as_values
strings_json-as_values [] = refl
strings_json-as_values (s ∷ ss) = rw (strings_json-as_values ss)

pub all_strings-as_values : (ss : List String) → all_strings (as_values ss) ≡ some ss
unfolding all_strings as_values
all_strings-as_values [] = refl
all_strings-as_values (s ∷ ss) = rw (all_strings-as_values ss)

pub as_values-AllFree :
    (float64 : String → Option String) (ss : List String) → AllFree float64 (as_values ss)
unfolding as_values Free
as_values-AllFree float64 [] = tt
as_values-AllFree float64 (s ∷ ss) = (tt, as_values-AllFree float64 ss)

-- a list of texts alone is never taken for a class name and a list
pub unwrap-as_values : (ss : List String) → unwrap (as_values ss) ≡ as_values ss
unfolding as_values unwrap
unwrap-as_values [] = refl
unwrap-as_values (s ∷ []) = refl
unwrap-as_values (s ∷ t ∷ []) = refl
unwrap-as_values (s ∷ t ∷ u ∷ ss) = refl
