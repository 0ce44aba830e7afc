-- ===== src/Satoken/Codec/Ints.antt =====
-- satoken/session_codec.go: an int64 field reads back the number that was printed.
use acat_go_common.Common.{◌≡◌, refl, ◌∙◌, ap, ℕ, suc, ◌*◌, ◌+◌, ◌-◌, String, some, arith}
use acat_go_common.Common.Int.{ℤ, pos, negsuc}
use acat_go_common.Common.Text.{show_nat, show_int}
use acat_go_common.Common.Text.Decimal.{IsDecimal}
use acat_go_common.Common.Text.Atoi.{to_number, unsigned, as_pos, as_neg, atoi}
use acat_go_common.Exec.{ok}
use acat_go_common.Satoken.Json.{jnum, read_int}
use acat_go_common.Satoken.Logic.Number.{read_more}
use acat_go_common.Satoken.Logic.Number.RoundTrip.{
  IsFilled, FitsInt64, read_more-show_nat, show_nat-IsDecimal, show_nat-IsFilled,
}
use Prim.Native.Char.{code}
use Prim.Native.String.{[], ◌∷◌, ◌++◌}
use text.Mathlib.TextLemmas.{nil-append, cons-append}

to_number-eq-read_more : (n : ℕ) (s : String) → IsDecimal s → to_number n s ≡ some (read_more n s)
unfolding to_number read_more
to_number-eq-read_more n [] h = refl
to_number-eq-read_more n (c ∷ s) (p, q, h) =
    let rest = to_number-eq-read_more (n * 10 + (code c - 48)) s h in ground (arith, rest)

unsigned-eq-read_more : (s : String) → IsDecimal s → IsFilled s → unsigned s ≡ some (read_more 0 s)
unfolding unsigned
unsigned-eq-read_more [] h k = absurd k
unsigned-eq-read_more (c ∷ s) h k = to_number-eq-read_more 0 (c ∷ s) h

unsigned-show_nat : (n : ℕ) → unsigned (show_nat n) ≡ some n
unsigned-show_nat n =
    unsigned-eq-read_more (show_nat n) (show_nat-IsDecimal n) (show_nat-IsFilled n)
    ∙ ap some (read_more-show_nat n)

atoi-decimal : (s : String) → IsDecimal s → IsFilled s → atoi s ≡ as_pos (unsigned s)
unfolding atoi
atoi-decimal [] h k = absurd k
atoi-decimal (c ∷ s) (p, q, h) k = ground arith

atoi-minus : (s : String) → atoi ("-" ++ s) ≡ as_neg (unsigned s)
unfolding atoi
atoi-minus s = rw (cons-append, nil-append) refl

pub atoi-show_int : (z : ℤ) → FitsInt64 z → atoi (show_int z) ≡ some z
unfolding show_int
atoi-show_int (pos n) h =
    atoi-decimal (show_nat n) (show_nat-IsDecimal n) (show_nat-IsFilled n)
    ∙ rw (unsigned-show_nat n) (ground arith)
atoi-show_int (negsuc n) h =
    atoi-minus (show_nat (suc n)) ∙ rw (unsigned-show_nat (suc n)) (ground arith)

pub read_int-show_int : (z a : ℤ) → FitsInt64 z → read_int (jnum (show_int z)) a ≡ ok z
unfolding read_int
read_int-show_int z a h = rw (read_int, atoi-show_int z h)
