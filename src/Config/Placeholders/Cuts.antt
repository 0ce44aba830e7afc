-- ===== src/Config/Placeholders/Cuts.antt =====
-- `strings.Cut` behind a text that does not hold the separator.
use acat_go_common.Common.{
  ◌≡◌, refl, ap, ◌∙◌, String, none, some, nat_eq, Bool-cases, Option-cases, inl, inr, arith,
}
use acat_go_common.Common.Text.{after_prefix}
use acat_go_common.Common.Text.Cut.{cut}
use Prim.Native.Char.{code, Char}
use Prim.Native.String.{[], ◌∷◌, ◌++◌}
use text.Mathlib.TextLemmas.{nil-append, cons-append}

-- a text that does not hold a separator, and its rest
cut-tail :
    (sep : String) (c : Char) (s : String)
    → cut sep (c ∷ s) ≡ none
    → (after_prefix sep (c ∷ s) ≡ none) × (cut sep s ≡ none)
unfolding cut
cut-tail sep c s h = elim (Option-cases (after_prefix sep (c ∷ s))) [
  | inr (rest, e) ↦ let no : some ("", rest) ≡ none = rw (cut, e) at h in absurd (cc no)
  | inl e ↦ elim (Option-cases (cut sep s)) [
    | inl e' ↦ (e, e')
    | inr (parts, e') ↦
        let no : some (c ∷ parts.0, parts.1) ≡ none = rw (cut, e, e') at h in absurd (cc no)
  ]
]

cut-here :
    (sep : String) (c : Char) (s rest : String)
    → after_prefix sep (c ∷ s) ≡ some rest
    → cut sep (c ∷ s) ≡ some ("", rest)
unfolding cut
cut-here sep c s rest e = rw (cut, e)

cut-skip :
    (sep : String) (c : Char) (s out rest : String)
    → after_prefix sep (c ∷ s) ≡ none
    → cut sep s ≡ some (out, rest)
    → cut sep (c ∷ s) ≡ some (c ∷ out, rest)
unfolding cut
cut-skip sep c s out rest e h = rw (cut, e, h)

char_here : (d : Char) (t : String) → after_prefix (d ∷ []) (d ∷ t) ≡ some t
unfolding after_prefix
char_here d t = ground arith

char_elsewhere :
    (d c : Char) (s t : String)
    → after_prefix (d ∷ []) (c ∷ s) ≡ none
    → after_prefix (d ∷ []) (c ∷ t) ≡ none
unfolding after_prefix
char_elsewhere d c s t h = elim (Bool-cases (nat_eq (code d) (code c))) [
  | inl e ↦ let no : some s ≡ none = rw e at h in absurd (cc no)
  | inr e ↦ rw e
]

-- a separator of one character, behind a text without it
cut_at :
    (d : Char) (s t : String) → cut (d ∷ []) s ≡ none → cut (d ∷ []) (s ++ (d ∷ t)) ≡ some (s, t)
cut_at d [] t h = rw nil-append (cut-here (d ∷ []) d t t (char_here d t))
cut_at d (c ∷ s) t h =
    let (p, q) = cut-tail (d ∷ []) c s h in
    rw cons-append (
      cut-skip (d ∷ []) c (s ++ (d ∷ t)) s t (char_elsewhere d c s (s ++ (d ∷ t)) p)
        (cut_at d s t q))

open_elsewhere :
    (c : Char) (s t : String)
    → after_prefix "${" (c ∷ s) ≡ none
    → after_prefix "${" (c ∷ (s ++ ("${" ++ t))) ≡ none
unfolding after_prefix
open_elsewhere c [] t h =
    rw (nil-append, cons-append)
      (elim (Bool-cases (nat_eq b'$' (code c))) [ inl e ↦ rw e | inr e ↦ rw e ])
open_elsewhere c (d ∷ s) t h = rw cons-append (elim (Bool-cases (nat_eq b'$' (code c))) [
  | inl e ↦ elim (Bool-cases (nat_eq b'{' (code d))) [
    | inl e' ↦ let no : some s ≡ none = rw (e, e') at h in absurd (cc no)
    | inr e' ↦ rw (e, e')
  ]
  | inr e ↦ rw e
])

open_here : (t : String) → cut "${" ("${" ++ t) ≡ some ("", t)
unfolding cut after_prefix
open_here t = rw (cons-append, cons-append, nil-append) refl

-- the start of a placeholder, behind a text without one
pub cut_open : (s t : String) → cut "${" s ≡ none → cut "${" (s ++ ("${" ++ t)) ≡ some (s, t)
cut_open [] t h = rw nil-append (open_here t)
cut_open (c ∷ s) t h =
    let (p, q) = cut-tail "${" c s h in
    rw cons-append
      (cut-skip "${" c (s ++ ("${" ++ t)) s t (open_elsewhere c s t p) (cut_open s t q))

-- a separator of one character is put in front
join : (d : Char) (s t : String) → s ++ ((d ∷ []) ++ t) ≡ s ++ (d ∷ t)
join d s t = rw (cons-append, nil-append)

pub cut_joined :
    (d : Char) (s t : String)
    → cut (d ∷ []) s ≡ none
    → cut (d ∷ []) (s ++ ((d ∷ []) ++ t)) ≡ some (s, t)
cut_joined d s t h = ap (cut (d ∷ [])) (join d s t) ∙ cut_at d s t h
