-- ===== src/Satoken/Token.antt =====
-- satoken/token.go: token values. The random sources are outside: `Rng` is what they deliver.
pub mod Shape
mod Tests
use acat_go_common.Common.{ℕ, zero, suc, ◌%◌, String, List, [], ◌∷◌, ◌||◌, get_or, if◌then◌else◌}
use acat_go_common.Common.Text.{trim_space, lower_is, drop_hyphens}
use acat_go_common.Apperr.{wrapped, plain}
use acat_go_common.Exec.{Return, ok, err}
use Prim.Native.String
use Prim.Native.String.{◌++◌}

-- What `uuid.NewRandom` and `uuid.NewString` return, and the bytes of the call of `rand.Read` with
-- a number, for a buffer of a length.
pub record Rng : Type 0 where
  pub uuid_new_random : Return String
  pub uuid_new_string : String
  pub read : ℕ → ℕ → Return (List ℕ)

abbrev pub alpha_num : String
alpha_num = "abcdefghijklmnopqrstuvwxyzABCDEFGHIJKLMNOPQRSTUVWXYZ0123456789"

-- the texts of one character that make up a text
unfoldable pub letters : String → List String
letters String.[] = []
letters (String.◌∷◌ c s) = String.◌∷◌ c String.[] ∷ letters s

-- the loop that fills `out`
unfoldable pub spell : List ℕ → String
unfolding letters
spell [] = ""
spell (b ∷ buf) = get_or (letters alpha_num) (b % 62) "" ++ spell buf

abbrev spelled : Return (List ℕ) → Return String
spelled (ok buf) = ok (spell buf)
spelled (err e) = err (wrapped "生成随机 token 失败: " e "")

-- `randomString`, whose buffer is filled by the call `i` of `rand.Read`; lengths are not negative.
unfoldable pub random_string : Rng → ℕ → ℕ → Return String
unfolding spell
random_string rng i zero = ok ""
random_string rng i (suc n) = spelled (rng.read i (suc n))

infixl 5 ◌>>=◌
abbrev ◌>>=◌ : Return String → (String → Return String) → Return String
ok s >>= f = f s
err e >>= f = err e

abbrev uuid_result : Return String → Return String
uuid_result (ok id) = ok id
uuid_result (err e) = err (wrapped "生成 uuid 失败: " e "")

unfoldable pub new_token_value : Rng → String → Return String
unfolding random_string trim_space lower_is drop_hyphens
new_token_value rng style =
    let s = trim_space style in
    if lower_is s "" || lower_is s "uuid"
    then uuid_result rng.uuid_new_random
    else if lower_is s "simple-uuid"
    then ok (drop_hyphens rng.uuid_new_string)
    else if lower_is s "random-32"
    then random_string rng 0 32
    else if lower_is s "random-64"
    then random_string rng 0 64
    else if lower_is s "random-128"
    then random_string rng 0 128
    else if lower_is s "tik"
    then (do
      a ← random_string rng 0 2
      b ← random_string rng 1 14
      c ← random_string rng 2 16
      ok (a ++ ("_" ++ (b ++ ("_" ++ (c ++ "__"))))))
    else err (plain ("token-style 取值无效: " ++ style))
