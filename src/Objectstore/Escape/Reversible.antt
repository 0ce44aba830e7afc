-- ===== src/Objectstore/Escape/Reversible.antt =====
-- objectstore/s3.go: no two object names are escaped alike.
use acat_go_common.Common.{
  ◌≡◌, refl, ap, ◌∙◌, ℕ, ◌+◌, ◌-◌, ◌*◌, ◌/◌, ◌%◌, ◌<◌, true, false, List, [], ◌∷◌, ◌++◌, All, ltb,
  nat_eq, if◌then◌else◌, Bool-cases, inl, inr, arith,
}
use mathlib.Core.List.{append_assoc}
use acat_go_common.Objectstore.Escape.{
  is_unreserved, hex_digit, escape_byte, aws_escape, split, escape_rest, escape_path,
}

-- Percent decoding: the state is how much of an escape has been read.
pub data Reading : Type 0 where
  plain : Reading
  first : Reading
  second : ℕ → Reading

abbrev pub unhex : ℕ → ℕ
unhex c = if ltb c 65 then c - 48 else c - 55

unfoldable pub unescape : Reading → List ℕ → List ℕ
unescape r [] = []
unescape plain (c ∷ cs) =
    let more = unescape plain cs in
    let escaped = unescape first cs in if nat_eq c b'%' then escaped else c ∷ more
unescape first (c ∷ cs) = unescape (second (unhex c)) cs
unescape (second h) (c ∷ cs) = (h * 16 + unhex c) ∷ unescape plain cs

unhex-hex_digit : (n : ℕ) → n < 16 → unhex (hex_digit n) ≡ n
unhex-hex_digit n h = ground arith

no_percent : (b : ℕ) → is_unreserved b ≡ true → nat_eq b b'%' ≡ false
unfolding is_unreserved
no_percent b h = ground (arith, h)

unescape-escape_byte :
    (b : ℕ) (rest : List ℕ)
    → b < 256
    → unescape plain (escape_byte b ++ rest) ≡ b ∷ unescape plain rest
unfolding unescape escape_byte
unescape-escape_byte b rest h = elim (Bool-cases (is_unreserved b)) [
  | inl e ↦ rw (escape_byte, e) (rw (no_percent b e))
  | inr e ↦
      rw
        (
          escape_byte,
          e,
          unhex-hex_digit (b / 16) (omega arith),
          unhex-hex_digit (b % 16) (omega arith),
        )
        (ap (λ n. n ∷ unescape plain rest) (omega arith))
]

unescape-aws_escape :
    (bs rest : List ℕ)
    → All (λ b. b < 256) bs
    → unescape plain (aws_escape bs ++ rest) ≡ bs ++ unescape plain rest
unfolding aws_escape
unescape-aws_escape [] rest h = refl
unescape-aws_escape (b ∷ bs) rest h =
    ap (unescape plain) (append_assoc (escape_byte b) (aws_escape bs) rest)
    ∙ unescape-escape_byte b (aws_escape bs ++ rest) h.0
    ∙ ap (λ t. b ∷ t) (unescape-aws_escape bs rest h.1)

-- the segments put together again
abbrev unsplit : List (List ℕ) → List ℕ
unsplit [] = []
unsplit (segment ∷ segments) = b'/' ∷ (segment ++ unsplit segments)

unsplit-split : (bs : List ℕ) → (split bs).0 ++ unsplit (split bs).1 ≡ bs
unfolding split
unsplit-split [] = refl
unsplit-split (b ∷ bs) =
    let ih = unsplit-split bs in
    elim (Bool-cases (nat_eq b b'/')) [
      | inl e ↦
          let slash : b'/' ≡ b = ground (arith, e) in
          rw (split, e) (ap (λ t. b'/' ∷ t) ih ∙ ap (λ c. c ∷ bs) slash)
      | inr e ↦ rw (split, e) (ap (λ t. b ∷ t) ih)
    ]

abbrev AllBytes : List ℕ → Type 0
AllBytes = All (λ b. b < 256)

split-AllBytes : (bs : List ℕ) → AllBytes bs → AllBytes (split bs).0 × All AllBytes (split bs).1
unfolding split
split-AllBytes [] h = (tt, tt)
split-AllBytes (b ∷ bs) h =
    let (p, q) = split-AllBytes bs h.1 in
    elim (Bool-cases (nat_eq b b'/')) [
      | inl e ↦ rw (split, e) (tt, (p, q))
      | inr e ↦ rw (split, e) ((h.0, p), q)
    ]

unescape-escape_rest :
    (segments : List (List ℕ))
    → All AllBytes segments
    → unescape plain (escape_rest segments) ≡ unsplit segments
unfolding escape_rest unescape
unescape-escape_rest [] h = refl
unescape-escape_rest (segment ∷ segments) h =
    ap (λ t. b'/' ∷ t)
      (unescape-aws_escape segment (escape_rest segments) h.0
        ∙ ap (λ t. segment ++ t) (unescape-escape_rest segments h.1))

-- Percent decoding takes the escaped path of an object name back to the name, byte for byte.
pub unescape-escape_path :
    (name : List ℕ) → All (λ b. b < 256) name → unescape plain (escape_path name) ≡ name
unfolding escape_path
unescape-escape_path name h =
    let (p, q) = split-AllBytes name h in
    unescape-aws_escape (split name).0 (escape_rest (split name).1) p
    ∙ ap (λ t. (split name).0 ++ t) (unescape-escape_rest (split name).1 q)
    ∙ unsplit-split name
