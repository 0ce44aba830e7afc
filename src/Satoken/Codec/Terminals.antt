-- ===== src/Satoken/Codec/Terminals.antt =====
-- satoken/session_codec.go: a terminal that is printed, decoded as an `any`, printed again and read.
use acat_go_common.Common.{
  ◌≡◌, refl, ◌∙◌, String, Bool, true, false, Option, some, List, [], ◌∷◌, ◌==◌, Bool-cases, inl,
  inr, arith, All,
}
use acat_go_common.Common.Int.{pos, eqb_ℤ}
use acat_go_common.Common.Text.{show_int}
use acat_go_common.Common.Assoc.{remove}
use acat_go_common.Exec.{ok}
use acat_go_common.Satoken.Value.{Value, Entries, number, str, object, end, entry}
use acat_go_common.Satoken.Session.{TerminalInfo}
use acat_go_common.Satoken.Json.{
  Fields, any_json, entries_json, read_field, read_string, read_int, read_map, members, from_list,
  put_all,
}
use acat_go_common.Satoken.Codec.{optional, is_nil, terminal_payload, terminal_values}
use acat_go_common.Satoken.Codec.Decode.{unmarshal_terminal, decode_terminals}
use acat_go_common.Satoken.Codec.Free.{
  Free, AllFree, FreeEntries, has_entry_key, decode_entries-entries_json,
}
use acat_go_common.Satoken.Codec.Reading.{
  has_entry_key-optional, names_field, names_field-optional, read_field_absent, read_field_skip,
  read_field_hit, eqb_ℤ_eq, empty_eq,
}
use acat_go_common.Satoken.Codec.Ints.{read_int-show_int}
use acat_go_common.Satoken.Logic.Number.RoundTrip.{FitsInt64}

module _ (float64 : String → Option String) where
  FreeEntries-optional :
      (empty : Bool) (k : String) (v : Value) (es : Entries)
      → has_entry_key k es ≡ false
      → Free float64 v
      → FreeEntries float64 es
      → FreeEntries float64 (optional empty k v es)
  unfolding optional Free
  FreeEntries-optional true k v es d f h = h
  FreeEntries-optional false k v es d f h = (d, f, h)

  -- the numbers of a terminal pass through float64, and its extra data come back
  abbrev pub KeptTerminal : TerminalInfo → Type 0
  KeptTerminal t =
      FitsInt64 t.index
      × (float64 (show_int t.index) ≡ some (show_int t.index))
      × FitsInt64 t.create_time
      × (float64 (show_int t.create_time) ≡ some (show_int t.create_time))
      × FreeEntries float64 (from_list t.extra)

  -- the six fields that may be left out have names that differ
  fields-Free :
      (a b c d e f : Bool) (u v w x y z : Value)
      → Free float64 u
      → Free float64 v
      → Free float64 w
      → Free float64 x
      → Free float64 y
      → Free float64 z
      → FreeEntries float64 (
          entry "@class" (str "cn.dev33.satoken.session.SaTerminalInfo") (
            optional a "index" u (
              optional b "tokenValue" v (
                optional c "deviceType" w (
                  optional d "deviceId" x
                    (optional e "extraData" y (optional f "createTime" z end)))))))
  unfolding Free has_entry_key
  fields-Free a b c d e f u v w x y z p q r s t o =
      let f6 = FreeEntries-optional f "createTime" z end refl o tt in
      let f5 = FreeEntries-optional e "extraData" y _ (simp has_entry_key-optional) t f6 in
      let f4 = FreeEntries-optional d "deviceId" x _ (simp has_entry_key-optional) s f5 in
      let f3 = FreeEntries-optional c "deviceType" w _ (simp has_entry_key-optional) r f4 in
      let f2 = FreeEntries-optional b "tokenValue" v _ (simp has_entry_key-optional) q f3 in
      let f1 = FreeEntries-optional a "index" u _ (simp has_entry_key-optional) p f2 in
      (simp has_entry_key-optional, tt, f1)

  terminal_payload-Free :
      (t : TerminalInfo) → KeptTerminal t → Free float64 (object (terminal_payload t))
  unfolding terminal_payload Free
  terminal_payload-Free t (fi, i, fc, c, e) =
      fields-Free (eqb_ℤ t.index (pos 0)) (t.token_value == "") (t.device_type == "")
        (t.device_id == "") (is_nil t.extra) (eqb_ℤ t.create_time (pos 0))
        (number (show_int t.index)) (str t.token_value) (str t.device_type) (str t.device_id)
        (object (from_list t.extra)) (number (show_int t.create_time)) i tt tt tt e c

is_nil_eq {ℓ} : {A : Type ℓ} (xs : List A) → is_nil xs ≡ true → [] ≡ xs
is_nil_eq [] h = refl
is_nil_eq (x ∷ xs) h = ground (arith, h)

remove_absent :
    (k : String) (es : List (String × Value))
    → has_entry_key k (from_list es) ≡ false
    → remove k es ≡ es
unfolding remove has_entry_key from_list
remove_absent k [] h = refl
remove_absent k (e ∷ es) h = elim (Bool-cases (e.0 == k)) [
  | inl q ↦ absurd (ground (arith, h, q))
  | inr q ↦ rw (q, remove_absent k es (ground (arith, h, q)))
]

module _ (float64 : String → Option String) where
  put_all-from_list :
      (es : List (String × Value))
      → FreeEntries float64 (from_list es)
      → put_all (from_list es) [] ≡ es
  unfolding put_all from_list Free
  put_all-from_list [] h = refl
  put_all-from_list (e ∷ es) (d, f, h) = rw (put_all-from_list es h, remove_absent e.0 es d)

  read_map-from_list :
      (es : List (String × Value))
      → FreeEntries float64 (from_list es)
      → read_map float64 (any_json (object (from_list es))) [] ≡ ok es
  unfolding read_map any_json
  read_map-from_list es h =
      rw (decode_entries-entries_json float64 (from_list es) h, put_all-from_list es h)

-- The fields of a printed terminal are read one by one.
module _ (float64 : String → Option String) (t : TerminalInfo) (h : KeptTerminal float64 t) where
  -- the fields from one of them on
  abbrev times : Entries
  times = optional (eqb_ℤ t.create_time (pos 0)) "createTime" (number (show_int t.create_time)) end

  abbrev extras : Entries
  extras = optional (is_nil t.extra) "extraData" (object (from_list t.extra)) times

  abbrev ids : Entries
  ids = optional (t.device_id == "") "deviceId" (str t.device_id) extras

  abbrev types : Entries
  types = optional (t.device_type == "") "deviceType" (str t.device_type) ids

  abbrev tokens : Entries
  tokens = optional (t.token_value == "") "tokenValue" (str t.token_value) types

  abbrev printed : Fields
  printed = entries_json (terminal_payload t)

  class_read :
      read_field read_string "@class" "" printed ≡ ok "cn.dev33.satoken.session.SaTerminalInfo"
  unfolding terminal_payload any_json read_field read_string names_field
  class_read =
      read_field_absent read_string "@class" "cn.dev33.satoken.session.SaTerminalInfo"
        (optional (eqb_ℤ t.index (pos 0)) "index" (number (show_int t.index)) tokens)
        (simp names_field-optional)

  index_read : read_field read_int "index" (pos 0) printed ≡ ok t.index
  unfolding terminal_payload any_json read_field read_string names_field
  index_read =
      read_field_hit read_int "index" (pos 0) t.index (eqb_ℤ t.index (pos 0)) "index"
        (number (show_int t.index)) tokens refl (simp names_field-optional)
        (eqb_ℤ_eq t.index (pos 0)) (read_int-show_int t.index (pos 0) h.0)

  token_value_read : read_field read_string "tokenValue" "" printed ≡ ok t.token_value
  unfolding terminal_payload any_json read_field read_string names_field
  token_value_read =
      read_field_skip read_string "tokenValue" "" (eqb_ℤ t.index (pos 0)) "index"
        (number (show_int t.index)) tokens refl
      ∙ read_field_hit read_string "tokenValue" "" t.token_value (t.token_value == "") "tokenValue"
          (str t.token_value) types refl (simp names_field-optional) (empty_eq t.token_value) refl

  device_type_read : read_field read_string "deviceType" "" printed ≡ ok t.device_type
  unfolding terminal_payload any_json read_field read_string names_field
  device_type_read =
      read_field_skip read_string "deviceType" "" (eqb_ℤ t.index (pos 0)) "index"
        (number (show_int t.index)) tokens refl
      ∙ read_field_skip read_string "deviceType" "" (t.token_value == "") "tokenValue"
          (str t.token_value) types refl
      ∙ read_field_hit read_string "deviceType" "" t.device_type (t.device_type == "") "deviceType"
          (str t.device_type) ids refl (simp names_field-optional) (empty_eq t.device_type) refl

  device_id_read : read_field read_string "deviceId" "" printed ≡ ok t.device_id
  unfolding terminal_payload any_json read_field read_string names_field
  device_id_read =
      read_field_skip read_string "deviceId" "" (eqb_ℤ t.index (pos 0)) "index"
        (number (show_int t.index)) tokens refl
      ∙ read_field_skip read_string "deviceId" "" (t.token_value == "") "tokenValue"
          (str t.token_value) types refl
      ∙ read_field_skip read_string "deviceId" "" (t.device_type == "") "deviceType"
          (str t.device_type) ids refl
      ∙ read_field_hit read_string "deviceId" "" t.device_id (t.device_id == "") "deviceId"
          (str t.device_id) extras refl (simp names_field-optional) (empty_eq t.device_id) refl

  extra_read : read_field (read_map float64) "extraData" [] printed ≡ ok t.extra
  unfolding terminal_payload any_json read_field read_string names_field
  extra_read =
      read_field_skip (read_map float64) "extraData" [] (eqb_ℤ t.index (pos 0)) "index"
        (number (show_int t.index)) tokens refl
      ∙ read_field_skip (read_map float64) "extraData" [] (t.token_value == "") "tokenValue"
          (str t.token_value) types refl
      ∙ read_field_skip (read_map float64) "extraData" [] (t.device_type == "") "deviceType"
          (str t.device_type) ids refl
      ∙ read_field_skip (read_map float64) "extraData" [] (t.device_id == "") "deviceId"
          (str t.device_id) extras refl
      ∙ read_field_hit (read_map float64) "extraData" [] t.extra (is_nil t.extra) "extraData"
          (object (from_list t.extra)) times refl (simp names_field-optional) (is_nil_eq t.extra)
          (read_map-from_list float64 t.extra h.4)

  create_time_read : read_field read_int "createTime" (pos 0) printed ≡ ok t.create_time
  unfolding terminal_payload any_json read_field read_string names_field
  create_time_read =
      read_field_skip read_int "createTime" (pos 0) (eqb_ℤ t.index (pos 0)) "index"
        (number (show_int t.index)) tokens refl
      ∙ read_field_skip read_int "createTime" (pos 0) (t.token_value == "") "tokenValue"
          (str t.token_value) types refl
      ∙ read_field_skip read_int "createTime" (pos 0) (t.device_type == "") "deviceType"
          (str t.device_type) ids refl
      ∙ read_field_skip read_int "createTime" (pos 0) (t.device_id == "") "deviceId"
          (str t.device_id) extras refl
      ∙ read_field_skip read_int "createTime" (pos 0) (is_nil t.extra) "extraData"
          (object (from_list t.extra)) times refl
      ∙ read_field_hit read_int "createTime" (pos 0) t.create_time (eqb_ℤ t.create_time (pos 0))
          "createTime" (number (show_int t.create_time)) end refl refl
          (eqb_ℤ_eq t.create_time (pos 0)) (read_int-show_int t.create_time (pos 0) h.2)

  -- A terminal that is printed is read back as itself.
  unmarshal_terminal-payload :
      unmarshal_terminal float64 (any_json (object (terminal_payload t))) ≡ ok t
  unfolding unmarshal_terminal any_json members
  unmarshal_terminal-payload = rw (
    class_read, index_read, token_value_read, device_type_read, device_id_read, extra_read,
    create_time_read,
  )

module _ (float64 : String → Option String) where
  pub terminal_values-AllFree :
      (ts : List TerminalInfo)
      → All (KeptTerminal float64) ts
      → AllFree float64 (terminal_values ts)
  unfolding terminal_values Free
  terminal_values-AllFree [] h = tt
  terminal_values-AllFree (t ∷ ts) h =
      (terminal_payload-Free float64 t h.0, terminal_values-AllFree ts h.1)

  pub decode_terminals-values :
      (ts : List TerminalInfo)
      → All (KeptTerminal float64) ts
      → decode_terminals float64 (terminal_values ts) ≡ ok ts
  unfolding terminal_values decode_terminals
  decode_terminals-values [] h = refl
  decode_terminals-values (t ∷ ts) h =
      rw (unmarshal_terminal-payload float64 t h.0, decode_terminals-values ts h.1)
