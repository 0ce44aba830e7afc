-- ===== src/Satoken/Codec/Decoded.antt =====
-- satoken/session_codec.go: what holds of every session that `unmarshalSession` returns.
use acat_go_common.Common.{
  ◌≡◌, refl, ap, ◌⊎◌, inl, inr, String, false, Option, none, some, List, [], ◌∷◌, length, ◌==◌,
  ◌||◌, Bool-cases, arith,
}
use mathlib.Core.Path.{subst}
use acat_go_common.Common.Int.{ℤ, pos, ◌≤ℤ◌}
use acat_go_common.Exec.{Return, ok, err}
use acat_go_common.Satoken.Value.{Value, Entries, end, entry}
use acat_go_common.Satoken.Session.{Session, TerminalInfo}
use acat_go_common.Satoken.Json.{
  Json, Fields, jnull, jbool, jnum, jstr, arr, obj, no_json, json, no_field, field, ◌>>=◌, explain,
  has_key, members, to_list, from_list,
}
use acat_go_common.Satoken.Codec.Decode.{
  decode_data_value, decode_members, decode_plain_map, decode_data_map, decode_optional,
  optional_terminals, optional_data_map, raise_count, listed, read_raw_session, decode_session,
  unmarshal_session,
}
use acat_go_common.Satoken.Codec.Free.{has_entry_key}

-- a chain that returns: its first call returned
bind-ok {ℓ κ} :
    {A : Type ℓ} {B : Type κ} (r : Return A) (f : A → Return B) (b : B)
    → (r >>= f) ≡ ok b
    → (a : A) × (r ≡ ok a) × (f a ≡ ok b)
bind-ok (ok a) f b h = (a, refl, h)
bind-ok (err e) f b h = absurd (cc h)

ok-injective {ℓ} : {A : Type ℓ} {a b : A} → ok a ≡ ok b → a ≡ b
ok-injective h = cc h

-- What is returned has a property.
abbrev Ensures {ℓ κ} : {A : Type ℓ} → (A → Type κ) → Return A → Type (ℓ ⊔ κ)
Ensures P r = (a : _) → r ≡ ok a → P a

abbrev IsMet {ℓ} : {A : Type ℓ} → A → Type 0
IsMet a = Unit

bind-Ensures {ℓ κ μ ν} :
    {A : Type ℓ} {B : Type κ} (Q : A → Type μ) (P : B → Type ν) (r : Return A) (f : A → Return B)
    → Ensures Q r
    → ((a : A) → Q a → Ensures P (f a))
    → Ensures P (r >>= f)
bind-Ensures Q P (ok a) f q k b h = k a (q a refl) b h
bind-Ensures Q P (err e) f q k b h = absurd (cc h)

-- Keys that differ, and no "@class" among them.
unfoldable pub PlainMap : List (String × Value) → Type 0
unfolding has_entry_key from_list
PlainMap [] = Unit
PlainMap (e ∷ es) =
    (has_entry_key e.0 (from_list es) ≡ false) × ((e.0 == "@class") ≡ false) × PlainMap es

-- No terminal is listed, or the count of terminals covers those that are.
abbrev pub Counted : Session → Type 0
Counted s = (s.terminal_list ≡ []) ⊎ (pos (length s.terminal_list) ≤ℤ s.history_terminal_count)

raise_count-Counted :
    (count : ℤ) (o : Option (List TerminalInfo))
    → (listed o ≡ []) ⊎ (pos (length (listed o)) ≤ℤ raise_count count o)
unfolding raise_count
raise_count-Counted count none = inl refl
raise_count-Counted count (some infos) = inr (ground arith)

abbrev Good : Session → Type 0
Good s = PlainMap s.data_map × Counted s

from_list-to_list : (es : Entries) → from_list (to_list es) ≡ es
unfolding from_list to_list
from_list-to_list end = refl
from_list-to_list (entry k v es) = ap (entry k v) (from_list-to_list es)

module _ (float64 : String → Option String) where
  -- what a member adds to the entries of the members behind it
  data Step (k : String) (fs : Fields) (es : Entries) : Type 0 where
    skipped : decode_members float64 fs ≡ ok es → Step k fs es
    added :
        (v : Value) (rest : Entries)
        → (k == "@class") ≡ false
        → has_key k fs ≡ false
        → decode_members float64 fs ≡ ok rest
        → entry k v rest ≡ es
        → Step k fs es

  added-Step :
      (k : String) (fs : Fields) (es : Entries) (r : Return Value)
      → (k == "@class" || has_key k fs) ≡ false
      → (explain "解析 dataMap 失败: " r >>= λ v.
          decode_members float64 fs >>= λ rest. ok (entry k v rest))
        ≡ ok es
      → Step k fs es
  added-Step k fs es r q h =
      let (v, p, h') = bind-ok (explain "解析 dataMap 失败: " r) _ es h in
      let (rest, p', e) = bind-ok (decode_members float64 fs) _ es h' in
      added v rest (ground (arith, q)) (ground (arith, q)) p' (cc e)

  decode_members-Step :
      (k : String) (j : Json) (fs : Fields) (es : Entries)
      → decode_members float64 (field k j fs) ≡ ok es
      → Step k fs es
  unfolding decode_data_value
  decode_members-Step k j fs es h = elim (Bool-cases (k == "@class" || has_key k fs)) [
    | inl q ↦ skipped (rw q at h)
    | inr q ↦ added-Step k fs es (decode_data_value float64 j) q (rw q at h)
  ]

  -- no key is made up
  decode_members-absent :
      (fs : Fields) (es : Entries) (key : String)
      → decode_members float64 fs ≡ ok es
      → has_key key fs ≡ false
      → has_entry_key key es ≡ false
  unfolding decode_data_value has_key has_entry_key
  decode_members-absent no_field es key h n =
      let e : end ≡ es = cc h in subst (λ r. has_entry_key key r ≡ false) e refl
  decode_members-absent (field k j fs) es key h n = elim (decode_members-Step k j fs es h) [
    | skipped p ↦ decode_members-absent fs es key p (ground (arith, n))
    | added v rest c q p e ↦
        let ih = decode_members-absent fs rest key p (ground (arith, n)) in
        subst (λ r. has_entry_key key r ≡ false) e (ground (arith, n, ih))
  ]

  decode_members-PlainMap :
      (fs : Fields) (es : Entries) → decode_members float64 fs ≡ ok es → PlainMap (to_list es)
  unfolding decode_data_value PlainMap to_list
  decode_members-PlainMap no_field es h =
      let e : end ≡ es = cc h in subst (λ r. PlainMap (to_list r)) e tt
  decode_members-PlainMap (field k j fs) es h = elim (decode_members-Step k j fs es h) [
    | skipped p ↦ decode_members-PlainMap fs es p
    | added v rest c q p e ↦
        let absent = decode_members-absent fs rest k p q in
        let ih = decode_members-PlainMap fs rest p in
        subst (λ r. PlainMap (to_list r)) e (rw (from_list-to_list rest) absent, c, ih)
  ]

  decode_plain_map-PlainMap :
      (j : Json) (es : Entries) → decode_plain_map float64 j ≡ ok es → PlainMap (to_list es)
  unfolding decode_plain_map
  decode_plain_map-PlainMap j es h =
      let (fs, p, q) = bind-ok (explain "解析 dataMap 对象失败: " (members j)) _ es h in
      decode_members-PlainMap fs es q

  decode_data_map-PlainMap :
      (j : Json) (es : Entries) → decode_data_map float64 j ≡ ok es → PlainMap (to_list es)
  unfolding decode_data_map PlainMap to_list
  decode_data_map-PlainMap jnull es h =
      let e : end ≡ es = cc h in subst (λ r. PlainMap (to_list r)) e tt
  decode_data_map-PlainMap (arr (json class (json j no_json))) es h =
      decode_plain_map-PlainMap j es h
  decode_data_map-PlainMap (arr no_json) es h = absurd (cc h)
  decode_data_map-PlainMap (arr (json a no_json)) es h = absurd (cc h)
  decode_data_map-PlainMap (arr (json a (json b (json c js)))) es h = absurd (cc h)
  decode_data_map-PlainMap (obj fs) es h = elim (Bool-cases (has_key "@items" fs)) [
    | inl q ↦ decode_members-PlainMap fs es (rw q at h)
    | inr q ↦ decode_plain_map-PlainMap (obj fs) es (rw q at h)
  ]
  decode_data_map-PlainMap (jbool b) es h = absurd (cc h)
  decode_data_map-PlainMap (jnum t) es h = absurd (cc h)
  decode_data_map-PlainMap (jstr t) es h = absurd (cc h)

  optional_data_map-PlainMap :
      (o : Option Json) (m : List (String × Value))
      → optional_data_map float64 o ≡ ok m
      → PlainMap m
  unfolding optional_data_map PlainMap
  optional_data_map-PlainMap none m h = let e : [] ≡ m = cc h in subst PlainMap e tt
  optional_data_map-PlainMap (some j) m h =
      let (es, p, q) = bind-ok (decode_data_map float64 j) _ m h in
      let e : to_list es ≡ m = cc q in subst PlainMap e (decode_data_map-PlainMap j es p)

  -- A session that is decoded has a data map with keys that differ and without "@class", and it
  -- counts at least the terminals that it lists, unless it lists none.
  pub unmarshal_session-PlainMap :
      (j : Json) (s : Session)
      → unmarshal_session float64 j ≡ ok s
      → PlainMap s.data_map × Counted s
  unfolding unmarshal_session decode_session
  unmarshal_session-PlainMap j =
      bind-Ensures IsMet Good (explain "解析 SaSession JSON 失败: " (read_raw_session j))
        (decode_session float64) (λ a h. tt)
        (λ raw _.
          bind-Ensures IsMet Good
            (explain "解析 SaSession.loginId 失败: " (decode_optional float64 raw.login_id)) _
            (λ a h. tt)
            (λ login_id _.
              bind-Ensures IsMet Good
                (explain "解析 SaSession.token 失败: " (decode_optional float64 raw.token)) _
                (λ a h. tt)
                (λ token _.
                  bind-Ensures IsMet Good (optional_terminals float64 raw.terminals) _ (λ a h. tt)
                    (λ terminals _.
                      bind-Ensures PlainMap Good (optional_data_map float64 raw.data_map) _
                        (optional_data_map-PlainMap raw.data_map)
                        (λ data_map plain s h.
                          subst Good (ok-injective h)
                            (plain, raise_count-Counted raw.history_terminal_count terminals))))))
