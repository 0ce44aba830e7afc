-- ===== src/Satoken/Json.antt =====
-- What satoken/session_codec.go uses of encoding/json, on values: a JSON text stands here as the
-- value that it spells. `float64` is what becomes of a number's text that is read into an `any` and
-- printed again (none: out of range); the texts of the package's own errors are not followed.
use acat_go_common.Common.{
  ℕ, String, Bool, true, false, Option, none, some, List, [], ◌∷◌, ◌&&◌, ◌||◌, ◌==◌, nat_eq, leb,
  if◌then◌else◌, ◌+◌,
}
use acat_go_common.Common.Int.{ℤ}
use acat_go_common.Common.Text.Atoi.{atoi}
use acat_go_common.Common.Assoc.{remove}
use acat_go_common.Apperr.{GoError, plain, wrapped}
use acat_go_common.Exec.{Return, ok, err}
use acat_go_common.Satoken.Value.{
  Value, Values, Entries, null, bool, number, str, strings, items, object, nil, cons, end, entry,
}
use Prim.Native.Char.{code}

mutual
  pub data Json : Type 0 where
    jnull : Json
    jbool : Bool → Json
    jnum : String → Json
    jstr : String → Json
    arr : Jsons → Json
    obj : Fields → Json

  pub data Jsons : Type 0 where
    no_json : Jsons
    json : Json → Jsons → Jsons

  pub data Fields : Type 0 where
    no_field : Fields
    field : String → Json → Fields → Fields

infixl 1 ◌>>=◌
-- `if err != nil { return err }`
abbrev pub ◌>>=◌ {ℓ κ} : {A : Type ℓ} {B : Type κ} → Return A → (A → Return B) → Return B
ok a >>= f = f a
err e >>= f = err e

-- `fmt.Errorf(prefix + "%w", err)`
abbrev pub explain {ℓ} : {A : Type ℓ} → String → Return A → Return A
explain prefix (ok a) = ok a
explain prefix (err e) = err (wrapped prefix e "")

-- A `map[string]any` inside an `any` is an `object`; in a struct it is a list of its entries.
unfoldable pub from_list : List (String × Value) → Entries
from_list [] = end
from_list (e ∷ es) = entry e.0 e.1 (from_list es)

unfoldable pub to_list : Entries → List (String × Value)
to_list end = []
to_list (entry k v es) = (k, v) ∷ to_list es

-- the entries of a map, put over those of another
unfoldable pub put_all : Entries → List (String × Value) → List (String × Value)
unfolding remove
put_all end a = a
put_all (entry k v es) a = (k, v) ∷ remove k (put_all es a)

-- `json.Unmarshal` of a value that does not fit
abbrev pub mismatch : GoError
mismatch = plain "json: cannot unmarshal"

unfoldable pub strings_json : List String → Jsons
strings_json [] = no_json
strings_json (s ∷ ss) = json (jstr s) (strings_json ss)

-- `json.Marshal` of an `any`
unfoldable mutual
  unfolding strings_json

  pub any_json : Value → Json
  any_json null = jnull
  any_json (bool b) = jbool b
  any_json (number t) = jnum t
  any_json (str s) = jstr s
  any_json (strings ss) = arr (strings_json ss)
  any_json (items vs) = arr (values_json vs)
  any_json (object es) = obj (entries_json es)

  pub values_json : Values → Jsons
  values_json nil = no_json
  values_json (cons v vs) = json (any_json v) (values_json vs)

  pub entries_json : Entries → Fields
  entries_json end = no_field
  entries_json (entry k v es) = field k (any_json v) (entries_json es)

unfoldable pub has_key : String → Fields → Bool
has_key key no_field = false
has_key key (field k j fs) = k == key || has_key key fs

abbrev pub number_of : Option String → Return Value
number_of none = err mismatch
number_of (some t) = ok (number t)

-- ASCII letters without their case; two other letters fold to ASCII ones.
fold_code : ℕ → ℕ
fold_code c =
    if leb b'A' c && leb c b'Z'
    then c + 32
    else if nat_eq c 0x212a
    then b'k'
    else if nat_eq c 0x17f
    then b's'
    else c

-- Does a key name a struct's field? Case is not looked at.
unfoldable pub same_field : String → String → Bool
unfolding fold_code
same_field String.[] String.[] = true
same_field (String.◌∷◌ c s) (String.◌∷◌ d t) =
    nat_eq (fold_code (code c)) (fold_code (code d)) && same_field s t
same_field _ _ = false

-- One field of a struct: each key that names it is read over what is there.
unfoldable pub read_field {ℓ} :
    {A : Type ℓ} → (Json → A → Return A) → String → A → Fields → Return A
unfolding same_field
read_field read name a no_field = ok a
read_field read name a (field key j fs) =
    (if same_field name key then read j a else ok a) >>= λ a'. read_field read name a' fs

unfoldable pub read_string : Json → String → Return String
read_string jnull a = ok a
read_string (jstr s) a = ok s
read_string _ a = err mismatch

unfoldable pub read_int : Json → ℤ → Return ℤ
unfolding atoi
read_int jnull a = ok a
read_int (jnum t) a = elim (atoi t) [ none ↦ err mismatch | some z ↦ ok z ]
read_int _ a = err mismatch

-- a `json.RawMessage`, which is not empty once it is read
abbrev pub read_raw : Json → Option Json → Return (Option Json)
read_raw j a = ok (some j)

-- the members that a struct is read from
unfoldable pub members : Json → Return Fields
members jnull = ok no_field
members (obj fs) = ok fs
members _ = err mismatch

module _ (float64 : String → Option String) where
  -- `json.Unmarshal` into an `any`; of two members with one key the last one counts.
  unfoldable mutual
    unfolding has_key

    pub decode_any : Json → Return Value
    decode_any jnull = ok null
    decode_any (jbool b) = ok (bool b)
    decode_any (jnum t) = number_of (float64 t)
    decode_any (jstr s) = ok (str s)
    decode_any (arr js) = do vs ← decode_anys js; ok (items vs)
    decode_any (obj fs) = do es ← decode_entries fs; ok (object es)

    pub decode_anys : Jsons → Return Values
    decode_anys no_json = ok nil
    decode_anys (json j js) = do v ← decode_any j; vs ← decode_anys js; ok (cons v vs)

    pub decode_entries : Fields → Return Entries
    decode_entries no_field = ok end
    decode_entries (field key j fs) = do
      v ← decode_any j
      es ← decode_entries fs
      ok (if has_key key fs then es else entry key v es)

  -- a `[]any`
  unfoldable pub read_items : Json → Values → Return Values
  unfolding decode_any
  read_items jnull a = ok nil
  read_items (arr js) a = decode_anys js
  read_items _ a = err mismatch

  -- a `map[string]any`, whose entries are put over those that are there
  unfoldable pub read_map : Json → List (String × Value) → Return (List (String × Value))
  unfolding decode_any
  read_map jnull a = ok []
  read_map (obj fs) a = do es ← decode_entries fs; ok (put_all es a)
  read_map _ a = err mismatch
