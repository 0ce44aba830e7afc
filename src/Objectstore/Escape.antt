-- ===== src/Objectstore/Escape.antt =====
-- objectstore/s3.go: `escapePath`. A Go string stands here as its bytes.
pub mod Reversible
use acat_go_common.Common.{
  ℕ, ◌+◌, ◌/◌, ◌%◌, Bool, ◌||◌, ◌&&◌, List, [], ◌∷◌, ◌++◌, leb, ltb, nat_eq, if◌then◌else◌,
}

-- Is a byte one of `unreserved`?
unfoldable pub is_unreserved : ℕ → Bool
is_unreserved b =
    leb b'A' b && leb b b'Z'
    || leb b'a' b && leb b b'z'
    || leb b'0' b && leb b b'9'
    || nat_eq b b'-'
    || nat_eq b b'_'
    || nat_eq b b'.'
    || nat_eq b b'~'

-- one digit of `%02X`
abbrev pub hex_digit : ℕ → ℕ
hex_digit n = if ltb n 10 then n + 48 else n + 55

-- what the loop of `awsEscape` writes for a byte
unfoldable pub escape_byte : ℕ → List ℕ
unfolding is_unreserved
escape_byte b =
    if is_unreserved b then b ∷ [] else b'%' ∷ hex_digit (b / 16) ∷ hex_digit (b % 16) ∷ []

unfoldable pub aws_escape : List ℕ → List ℕ
unfolding escape_byte
aws_escape [] = []
aws_escape (b ∷ bs) = escape_byte b ++ aws_escape bs

-- `strings.Split(objectName, "/")`: the first segment and the others
unfoldable pub split : List ℕ → List ℕ × List (List ℕ)
split [] = ([], [])
split (b ∷ bs) =
    let (segment, segments) = split bs in
    if nat_eq b b'/' then ([], segment ∷ segments) else (b ∷ segment, segments)

unfoldable pub escape_rest : List (List ℕ) → List ℕ
unfolding aws_escape
escape_rest [] = []
escape_rest (segment ∷ segments) = b'/' ∷ (aws_escape segment ++ escape_rest segments)

unfoldable pub escape_path : List ℕ → List ℕ
unfolding split escape_rest
escape_path name =
    let (segment, segments) = split name in aws_escape segment ++ escape_rest segments
