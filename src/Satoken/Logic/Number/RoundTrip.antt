-- ===== src/Satoken/Logic/Number/RoundTrip.antt =====
-- `parseInt64` of satoken/logic.go on what `%d` prints.
use acat_go_common.Common.{
  ◌==◌, eq_iff, sym, ◌≡◌, refl, ap, ◌∙◌, ℕ, zero, suc, ◌+◌, ◌-◌, ◌*◌, ◌/◌, ◌%◌, ◌≤◌, ◌<◌, ◌^◌,
  String, Bool, true, false, some, arith, ltb, Bool-cases, inl, inr,
}
use mathlib.Core.Bool.{true≢false}
use acat_go_common.Common.Int.{ℤ, pos, negsuc}
use acat_go_common.Common.Text.{digit, show_fuel, show_nat, show_int, trim_space, is_space}
use acat_go_common.Common.Text.Trim.{HasNoSpace, trim_space-HasNoSpace}
use acat_go_common.Common.Text.Decimal.{IsDecimal, show_fuel-IsDecimal}
use acat_go_common.Exec.{Return, ok, err}
use acat_go_common.Satoken.Logic.Number.{
  failed, read_more, read_digits, positive, negative, read_signed, parse_int64,
}
use Prim.Native.Char.{code}
use Prim.Native.String.{[], ◌∷◌, ◌++◌}
use text.Mathlib.TextLemmas.{nil-append, cons-append}

read_more-append :
    (n : ℕ) (s t : String) → IsDecimal s → read_more n (s ++ t) ≡ read_more (read_more n s) t
unfolding read_more
read_more-append n [] t h = rw nil-append
read_more-append n (c ∷ s) t (p, q, h) =
    let step = read_more-append (n * 10 + (code c - 48)) s t h in
    rw cons-append (ground (arith, step))

-- one more digit
read_more-digit : (n d : ℕ) → d < 10 → read_more n (digit d) ≡ n * 10 + d
unfolding read_more
read_more-digit n zero h = refl
read_more-digit n (suc zero) h = refl
read_more-digit n (suc (suc zero)) h = refl
read_more-digit n (suc (suc (suc zero))) h = refl
read_more-digit n (suc (suc (suc (suc zero)))) h = refl
read_more-digit n (suc (suc (suc (suc (suc zero))))) h = refl
read_more-digit n (suc (suc (suc (suc (suc (suc zero)))))) h = refl
read_more-digit n (suc (suc (suc (suc (suc (suc (suc zero))))))) h = refl
read_more-digit n (suc (suc (suc (suc (suc (suc (suc (suc zero)))))))) h = refl
read_more-digit n (suc (suc (suc (suc (suc (suc (suc (suc (suc zero))))))))) h = refl
read_more-digit n (suc (suc (suc (suc (suc (suc (suc (suc (suc (suc d)))))))))) h =
    absurd (omega arith)

read_more-show_fuel : (f n : ℕ) → n < f → read_more 0 (show_fuel f n) ≡ n
unfolding show_fuel
read_more-show_fuel zero n h = elim h [ ]
read_more-show_fuel (suc f) n h = elim (Bool-cases (ltb n 10)) [
  | inl small ↦ rw small (read_more-digit 0 n (ground arith) ∙ omega arith)
  | inr large ↦
      let front = read_more-show_fuel f (n / 10) (ground arith) in
      let last = read_more-digit (n / 10) (n % 10) (omega arith) in
      rw large (
        read_more-append 0 (show_fuel f (n / 10)) (digit (n % 10)) (show_fuel-IsDecimal f (n / 10))
        ∙ rw front (last ∙ omega arith))
]

-- not the empty text
abbrev pub IsFilled : String → Type 0
IsFilled [] = ⊥
IsFilled (c ∷ s) = Unit

digit-IsFilled : (d : ℕ) → IsFilled (digit d)
digit-IsFilled zero = tt
digit-IsFilled (suc zero) = tt
digit-IsFilled (suc (suc zero)) = tt
digit-IsFilled (suc (suc (suc zero))) = tt
digit-IsFilled (suc (suc (suc (suc zero)))) = tt
digit-IsFilled (suc (suc (suc (suc (suc zero))))) = tt
digit-IsFilled (suc (suc (suc (suc (suc (suc zero)))))) = tt
digit-IsFilled (suc (suc (suc (suc (suc (suc (suc zero))))))) = tt
digit-IsFilled (suc (suc (suc (suc (suc (suc (suc (suc zero)))))))) = tt
digit-IsFilled _ = tt

IsFilled-append : (s t : String) → IsFilled t → IsFilled (s ++ t)
IsFilled-append [] t h = rw nil-append h
IsFilled-append (c ∷ s) t h = rw cons-append tt

pub show_nat-IsFilled : (n : ℕ) → IsFilled (show_nat n)
unfolding show_nat
show_nat-IsFilled n = elim (Bool-cases (ltb n 10)) [
  | inl small ↦ rw small (digit-IsFilled n)
  | inr large ↦
      rw large (IsFilled-append (show_fuel n (n / 10)) (digit (n % 10)) (digit-IsFilled (n % 10)))
]

pub show_nat-IsDecimal : (n : ℕ) → IsDecimal (show_nat n)
unfolding show_nat
show_nat-IsDecimal n = show_fuel-IsDecimal (suc n) n

pub read_more-show_nat : (n : ℕ) → read_more 0 (show_nat n) ≡ n
unfolding show_nat
read_more-show_nat n = read_more-show_fuel (suc n) n (omega arith)

read_digits-eq-read_more :
    (s : String) → IsDecimal s → IsFilled s → read_digits s ≡ some (read_more 0 s)
unfolding read_digits
read_digits-eq-read_more [] h k = absurd k
read_digits-eq-read_more (c ∷ s) (p, q, h) k = ground arith

read_digits-show_nat : (n : ℕ) → read_digits (show_nat n) ≡ some n
read_digits-show_nat n =
    read_digits-eq-read_more (show_nat n) (show_nat-IsDecimal n) (show_nat-IsFilled n)
    ∙ ap some (read_more-show_nat n)

decimal_code : (c : ℕ) → 48 ≤ c → c ≤ 57 → is_space c ≡ false
unfolding is_space
decimal_code c p q = ground arith

IsDecimal-HasNoSpace : (s : String) → IsDecimal s → HasNoSpace s
IsDecimal-HasNoSpace [] h = tt
IsDecimal-HasNoSpace (c ∷ s) (p, q, h) = (decimal_code (code c) p q, IsDecimal-HasNoSpace s h)

read_signed-decimal :
    (raw s : String) → IsDecimal s → IsFilled s → read_signed raw s ≡ positive raw (read_digits s)
unfolding read_signed
read_signed-decimal raw [] h k = absurd k
read_signed-decimal raw (c ∷ s) (p, q, h) k = ground arith

positive_fits : (raw : String) (n : ℕ) → n < 2 ^ 63 → positive raw (some n) ≡ ok (pos n)
unfolding positive
positive_fits raw n h = ground arith

negative_fits : (raw : String) (n : ℕ) → n < 2 ^ 63 → negative raw (some (suc n)) ≡ ok (negsuc n)
unfolding negative
negative_fits raw n h = ground arith

minus_HasNoSpace : (s : String) → HasNoSpace s → HasNoSpace ("-" ++ s)
unfolding is_space
minus_HasNoSpace s h = rw (cons-append, nil-append) (refl, h)

read_signed-minus : (raw s : String) → read_signed raw ("-" ++ s) ≡ negative raw (read_digits s)
unfolding read_signed
read_signed-minus raw s = rw (cons-append, nil-append) refl

-- an int64
abbrev pub FitsInt64 : ℤ → Type 0
FitsInt64 (pos n) = n < 2 ^ 63
FitsInt64 (negsuc n) = n < 2 ^ 63

-- Every int64 that is printed with `%d` is read back as itself.
pub parse_int64-show_int : (z : ℤ) → FitsInt64 z → parse_int64 (show_int z) ≡ ok z
unfolding parse_int64 show_int
parse_int64-show_int (pos n) h =
    let s = show_nat n in
    ap (read_signed s) (trim_space-HasNoSpace s (IsDecimal-HasNoSpace s (show_nat-IsDecimal n)))
    ∙ read_signed-decimal s s (show_nat-IsDecimal n) (show_nat-IsFilled n)
    ∙ ap (positive s) (read_digits-show_nat n)
    ∙ positive_fits s n h
parse_int64-show_int (negsuc n) h =
    let s = show_nat (suc n) in
    let raw = "-" ++ s in
    ap (read_signed raw) (
      trim_space-HasNoSpace raw
        (minus_HasNoSpace s (IsDecimal-HasNoSpace s (show_nat-IsDecimal (suc n)))))
    ∙ read_signed-minus raw s
    ∙ ap (negative raw) (read_digits-show_nat (suc n))
    ∙ negative_fits raw n h

is_read : Return ℤ → Bool
is_read (ok z) = true
is_read (err e) = false

blank_fails : (raw : String) → trim_space raw ≡ "" → is_read (parse_int64 raw) ≡ false
unfolding parse_int64 read_signed positive failed is_read
blank_fails raw e = rw e

-- a text that is read is not blank
pub read_is_filled :
    (raw : String) (z : ℤ) → parse_int64 raw ≡ ok z → (trim_space raw == "") ≡ false
unfolding is_read
read_is_filled raw z e = elim (Bool-cases (trim_space raw == "")) [
  | inl blank ↦ absurd (
      true≢false
        (sym (ap is_read e) ∙ blank_fails raw (ground (arith, eq_iff (trim_space raw) "", blank))))
  | inr filled ↦ filled
]
