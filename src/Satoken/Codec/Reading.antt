-- ===== src/Satoken/Codec/Reading.antt =====
-- satoken/session_codec.go: finding one field of a struct among the members that were printed, where
-- some fields may be left out.
use acat_go_common.Common.{
  ◌≡◌, refl, String, Bool, true, false, not, ◌&&◌, ◌||◌, ◌==◌, Bool-cases, inl, inr, arith, eq_iff,
}
use acat_go_common.Common.Int.{ℤ, pos, negsuc, eqb_ℤ}
use acat_go_common.Exec.{Return, ok}
use acat_go_common.Satoken.Value.{Value, Entries, end, entry}
use acat_go_common.Satoken.Json.{Json, any_json, entries_json, same_field, read_field}
use acat_go_common.Satoken.Codec.{optional}
use acat_go_common.Satoken.Codec.Free.{has_entry_key}

pub has_entry_key-optional :
    (key : String) (empty : Bool) (k : String) (v : Value) (es : Entries)
    → has_entry_key key (optional empty k v es) ≡ k == key && not empty || has_entry_key key es
unfolding has_entry_key optional
has_entry_key-optional key true k v es = ground arith
has_entry_key-optional key false k v es = ground arith

-- Does an entry name a struct's field?
unfoldable pub names_field : String → Entries → Bool
unfolding same_field
names_field name end = false
names_field name (entry k v es) = same_field name k || names_field name es

pub names_field-optional :
    (name : String) (empty : Bool) (k : String) (v : Value) (es : Entries)
    → names_field name (optional empty k v es)
      ≡ same_field name k && not empty || names_field name es
unfolding names_field optional
names_field-optional name true k v es = ground arith
names_field-optional name false k v es = ground arith

module _ {ℓ} {A : Type ℓ} (read : Json → A → Return A) (name : String) where
  pub read_field_absent :
      (a : A) (es : Entries)
      → names_field name es ≡ false
      → read_field read name a (entries_json es) ≡ ok a
  unfolding names_field read_field any_json
  read_field_absent a end h = refl
  read_field_absent a (entry k v es) h = elim (Bool-cases (same_field name k)) [
    | inl e ↦ absurd (ground (arith, h, e))
    | inr e ↦ rw e (read_field_absent a es (ground (arith, h, e)))
  ]

  -- a field with another name
  pub read_field_skip :
      (a : A) (empty : Bool) (k : String) (v : Value) (es : Entries)
      → same_field name k ≡ false
      → read_field read name a (entries_json (optional empty k v es))
        ≡ read_field read name a (entries_json es)
  unfolding read_field any_json optional
  read_field_skip a true k v es e = refl
  read_field_skip a false k v es e = rw e

  -- the field, which is left out only where it has its first value
  pub read_field_hit :
      (a x : A) (empty : Bool) (k : String) (v : Value) (es : Entries)
      → same_field name k ≡ true
      → names_field name es ≡ false
      → (empty ≡ true → a ≡ x)
      → read (any_json v) a ≡ ok x
      → read_field read name a (entries_json (optional empty k v es)) ≡ ok x
  unfolding read_field any_json optional
  read_field_hit a x true k v es e h left r = rw (read_field_absent a es h, left refl)
  read_field_hit a x false k v es e h left r = rw (e, r, read_field_absent x es h)

pub eqb_ℤ_eq : (a b : ℤ) → eqb_ℤ a b ≡ true → b ≡ a
eqb_ℤ_eq (pos a) (pos b) h = ground (arith, h)
eqb_ℤ_eq (negsuc a) (negsuc b) h = ground (arith, h)
eqb_ℤ_eq (pos a) (negsuc b) h = ground (arith, h)
eqb_ℤ_eq (negsuc a) (pos b) h = ground (arith, h)

pub empty_eq : (s : String) → (s == "") ≡ true → "" ≡ s
empty_eq s h = ground (arith, eq_iff s "", h)
