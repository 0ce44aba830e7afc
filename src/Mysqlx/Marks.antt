-- ===== src/Mysqlx/Marks.antt =====
-- mysqlx/mysqlx.go: the question marks of a text.
use acat_go_common.Common.{
  ◌≡◌, refl, sym, ap, ◌∙◌, ℕ, zero, suc, ◌+◌, String, List, [], ◌∷◌, nat_eq, ◌==◌, if◌then◌else◌,
  Bool-cases, inl, inr, eq_iff, arith,
}
use acat_go_common.Mysqlx.{repeat, trim_suffix}
use acat_go_common.Mysqlx.Statements.{join}
use Prim.Native.Char.{code}
use Prim.Native.String.{◌++◌}
use text.Mathlib.TextLemmas.{nil-append, cons-append}

abbrev pub marks : String → ℕ
marks String.[] = 0
marks (String.◌∷◌ c s) = let more = marks s in if nat_eq (code c) b'?' then suc more else more

pub marks-append : (s t : String) → marks (s ++ t) ≡ marks s + marks t
marks-append String.[] t = rw nil-append (omega arith)
marks-append (String.◌∷◌ c s) t = let ih = marks-append s t in rw cons-append (ground (arith, ih))

pub marks-repeat : (s : String) (n : ℕ) → marks s ≡ 1 → marks (repeat s n) ≡ n
unfolding repeat
marks-repeat s zero h = refl
marks-repeat s (suc n) h = omega (arith, h, marks-append s (repeat s n), marks-repeat s n h)

-- cutting off a suffix without a mark
pub marks-trim_suffix :
    (s suffix : String) → marks suffix ≡ 0 → marks (trim_suffix s suffix) ≡ marks s
unfolding trim_suffix
marks-trim_suffix String.[] suffix h = refl
marks-trim_suffix (String.◌∷◌ c s) suffix h = elim (Bool-cases (String.◌∷◌ c s == suffix)) [
  | inl e ↦
      let same : String.◌∷◌ c s ≡ suffix = ground (arith, eq_iff (String.◌∷◌ c s) suffix, e) in
      rw e (sym (ap marks same ∙ h))
  | inr e ↦ let ih = marks-trim_suffix s suffix h in rw e (ground (arith, ih))
]

abbrev pub total : List String → ℕ
total [] = 0
total (s ∷ ss) = marks s + total ss

pub marks-join : (sep : String) (ss : List String) → marks sep ≡ 0 → marks (join sep ss) ≡ total ss
unfolding join
marks-join sep [] h = refl
marks-join sep (s ∷ []) h = omega arith
marks-join sep (s ∷ t ∷ ts) h = omega (
  arith,
  h,
  marks-append s (sep ++ join sep (t ∷ ts)),
  marks-append sep (join sep (t ∷ ts)),
  marks-join sep (t ∷ ts) h,
)
