-- ===== src/Satoken/Token/Tests.antt =====
-- Random tokens from a concrete source of bytes.
use acat_go_common.Common.{◌≡◌, refl, ap, ℕ, zero, suc, List, [], ◌∷◌, length}
use mathlib.Core.Path.{subst}
use acat_go_common.Exec.{ok}
use acat_go_common.Satoken.Token.{Rng, new_token_value}
use acat_go_common.Satoken.Token.Shape.{
  FillsBuffers, HasShape, tik, style_name, style_length, style_allows, new_token_value_shape,
}

-- a buffer of counting bytes
abbrev bytes : ℕ → List ℕ
bytes zero = []
bytes (suc n) = n ∷ bytes n

length-bytes : (n : ℕ) → length (bytes n) ≡ n
length-bytes zero = refl
length-bytes (suc n) = ap suc (length-bytes n)

abbrev rng : Rng
rng = record { uuid_new_random = ok "1-2"; uuid_new_string = "1-2"; read = λ i n. ok (bytes n) }

same_length : (n : ℕ) (buf : List ℕ) → ok (bytes n) ≡ ok buf → length buf ≡ n
same_length n buf e =
    let same : bytes n ≡ buf = cc e in subst (λ b. length b ≡ n) same (length-bytes n)

rng-FillsBuffers : FillsBuffers rng
rng-FillsBuffers = record { filled = λ i n buf e. same_length n buf e }

tik_runs : new_token_value rng (style_name tik) ≡ ok "ba_nmlkjihgfedcba_ponmlkjihgfedcba__"
unfolding new_token_value
tik_runs = refl

new_token_value_shape_example :
    HasShape (style_length tik) (style_allows tik) "ba_nmlkjihgfedcba_ponmlkjihgfedcba__"
new_token_value_shape_example =
    new_token_value_shape rng tik "ba_nmlkjihgfedcba_ponmlkjihgfedcba__" rng-FillsBuffers tik_runs
