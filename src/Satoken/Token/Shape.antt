-- ===== src/Satoken/Token/Shape.antt =====
-- The shape of random token values.
use Prim.Native.Char.{Char, code}
use mathlib.Core.Path.{subst}
use acat_go_common.Common.{
  leb, ◌&&◌, ◌||◌, ◌≡◌, refl, ap, ◌∙◌, ℕ, zero, suc, nat_eq, ◌+◌, ◌%◌, ◌<◌, String, Bool, true,
  List, [], ◌∷◌, length, arith, get_or,
}
use Prim.Native.String.{◌++◌, count}
use text.Mathlib.TextLemmas.{length-append, length-cons, nil-append, cons-append}
use acat_go_common.Exec.{Return, ok, err}
use acat_go_common.Satoken.Token.{
  Rng, alpha_num, letters, spell, spelled, random_string, new_token_value, ◌>>=◌,
}

-- `rand.Read` fills the whole buffer.
pub record FillsBuffers (rng : Rng) : Type 0 where
  pub filled : (i n : ℕ) (buf : List ℕ) → rng.read i n ≡ ok buf → length buf ≡ n

-- Is every character of a text in the class?
abbrev pub all_codes : (ℕ → Bool) → String → Bool
all_codes p String.[] = true
all_codes p (String.◌∷◌ c s) = p (code c) && all_codes p s

-- a letter or a digit of ASCII
abbrev pub is_alnum : ℕ → Bool
is_alnum c = leb b'a' c && leb c b'z' || leb b'A' c && leb c b'Z' || leb b'0' c && leb c b'9'

all_codes-append :
    (p : ℕ → Bool) (s t : String)
    → all_codes p s ≡ true
    → all_codes p t ≡ true
    → all_codes p (s ++ t) ≡ true
all_codes-append p String.[] t h k = rw nil-append k
all_codes-append p (String.◌∷◌ c s) t h k =
    rw cons-append (ground (arith, all_codes-append p s t, h))

length-letters : (s : String) → length (letters s) ≡ count s
unfolding letters
length-letters String.[] = refl
length-letters (String.◌∷◌ c s) = rw length-cons (ap suc (length-letters s))

count_one : (c : Char) → count (String.◌∷◌ c String.[]) ≡ 1
count_one c = rw length-cons refl

letter_shape :
    (p : ℕ → Bool) (s : String) (i : ℕ)
    → all_codes p s ≡ true
    → i < length (letters s)
    → (count (get_or (letters s) i "") ≡ 1) × (all_codes p (get_or (letters s) i "") ≡ true)
unfolding letters
letter_shape p String.[] i h k = elim k [ ]
letter_shape p (String.◌∷◌ c s) zero h k = (count_one c, ground arith)
letter_shape p (String.◌∷◌ c s) (suc i) h k = letter_shape p s i (ground arith) (omega arith)

alphabet_shape :
    (i : ℕ)
    → i < 62
    → (count (get_or (letters alpha_num) i "") ≡ 1)
      × (all_codes is_alnum (get_or (letters alpha_num) i "") ≡ true)
alphabet_shape i h = letter_shape is_alnum alpha_num i refl (unfold letters in h)

spell_shape :
    (buf : List ℕ) → (count (spell buf) ≡ length buf) × (all_codes is_alnum (spell buf) ≡ true)
unfolding spell
spell_shape [] = (refl, refl)
spell_shape (b ∷ buf) =
    let (one, fine) = alphabet_shape (b % 62) (omega arith) in
    let (more, also) = spell_shape buf in
    (
      rw length-append (omega arith),
      all_codes-append is_alnum (get_or (letters alpha_num) (b % 62) "") (spell buf) fine also,
    )

-- `n` characters, all of the class
abbrev pub HasShape : ℕ → (ℕ → Bool) → String → Type 0
HasShape n p t = (count t ≡ n) × (all_codes p t ≡ true)

spelled_shape :
    (n : ℕ) (r : Return (List ℕ)) (t : String)
    → ((buf : List ℕ) → r ≡ ok buf → length buf ≡ n)
    → spelled r ≡ ok t
    → HasShape n is_alnum t
spelled_shape n (ok buf) t f h =
    let same : spell buf ≡ t = cc in
    let (size, fine) = spell_shape buf in subst (HasShape n is_alnum) same (size ∙ f buf refl, fine)
spelled_shape n (err e) t f h = cc

random_string_shape :
    (rng : Rng) (i n : ℕ) (t : String)
    → FillsBuffers rng
    → random_string rng i n ≡ ok t
    → HasShape n is_alnum t
unfolding random_string
random_string_shape rng i zero t f h = subst (HasShape 0 is_alnum) {x = ""} (cc) (refl, refl)
random_string_shape rng i (suc n) t f h =
    spelled_shape (suc n) (rng.read i (suc n)) t (f.filled i (suc n)) h

-- a letter, a digit or the underscore
abbrev pub is_tik_code : ℕ → Bool
is_tik_code c = is_alnum c || nat_eq c b'_'

all_codes-weaken : (s : String) → all_codes is_alnum s ≡ true → all_codes is_tik_code s ≡ true
all_codes-weaken String.[] h = refl
all_codes-weaken (String.◌∷◌ c s) h = ground (arith, all_codes-weaken s)

HasShape-append :
    (m n : ℕ) (s t : String)
    → HasShape m is_tik_code s
    → HasShape n is_tik_code t
    → HasShape (m + n) is_tik_code (s ++ t)
HasShape-append m n s t (a, p) (b, q) =
    (rw length-append (omega arith), all_codes-append is_tik_code s t p q)

HasShape-weaken : (n : ℕ) (s : String) → HasShape n is_alnum s → HasShape n is_tik_code s
HasShape-weaken n s (a, p) = (a, all_codes-weaken s p)

tik_shape :
    (a b c : String)
    → HasShape 2 is_alnum a
    → HasShape 14 is_alnum b
    → HasShape 16 is_alnum c
    → HasShape 36 is_tik_code (a ++ ("_" ++ (b ++ ("_" ++ (c ++ "__")))))
tik_shape a b c ha hb hc = HasShape-append 2 34 a _ (HasShape-weaken 2 a ha) (
    HasShape-append 1 33 "_" _ (refl, refl)
      (HasShape-append 14 19 b _ (HasShape-weaken 14 b hb) (
        HasShape-append 1 18 "_" _ (refl, refl)
          (HasShape-append 16 2 c "__" (HasShape-weaken 16 c hc) (refl, refl)))))

tik_of_parts :
    (ma mb mc : Return String) (t : String)
    → ((s : String) → ma ≡ ok s → HasShape 2 is_alnum s)
    → ((s : String) → mb ≡ ok s → HasShape 14 is_alnum s)
    → ((s : String) → mc ≡ ok s → HasShape 16 is_alnum s)
    → (ma >>= λ a. mb >>= λ b. mc >>= λ c. ok (a ++ ("_" ++ (b ++ ("_" ++ (c ++ "__")))))) ≡ ok t
    → HasShape 36 is_tik_code t
tik_of_parts (ok a) (ok b) (ok c) t fa fb fc h =
    let same : (a ++ ("_" ++ (b ++ ("_" ++ (c ++ "__"))))) ≡ t = cc in
    subst (HasShape 36 is_tik_code) same (tik_shape a b c (fa a refl) (fb b refl) (fc c refl))
tik_of_parts (ok a) (ok b) (err e) t fa fb fc h = cc
tik_of_parts (ok a) (err e) mc t fa fb fc h = cc
tik_of_parts (err e) mb mc t fa fb fc h = cc

-- the styles whose tokens come from `rand.Read`
pub data RandomStyle : Type 0 where
  random_32 random_64 random_128 tik : RandomStyle

abbrev pub style_name : RandomStyle → String
style_name random_32 = "random-32"
style_name random_64 = "random-64"
style_name random_128 = "random-128"
style_name tik = "tik"

-- how many characters, and which
abbrev pub style_length : RandomStyle → ℕ
style_length random_32 = 32
style_length random_64 = 64
style_length random_128 = 128
style_length tik = 36

abbrev pub style_allows : RandomStyle → ℕ → Bool
style_allows tik = is_tik_code
style_allows _ = is_alnum

-- A random token that is returned has as many characters as its style says, all of them ASCII
-- letters and digits, or underscores in a `tik` token.
pub new_token_value_shape :
    (rng : Rng) (style : RandomStyle) (t : String)
    → FillsBuffers rng
    → new_token_value rng (style_name style) ≡ ok t
    → HasShape (style_length style) (style_allows style) t
unfolding new_token_value
new_token_value_shape rng random_32 t fills = random_string_shape rng 0 32 t fills
new_token_value_shape rng random_64 t fills = random_string_shape rng 0 64 t fills
new_token_value_shape rng random_128 t fills = random_string_shape rng 0 128 t fills
new_token_value_shape rng tik t fills =
    tik_of_parts (random_string rng 0 2) (random_string rng 1 14) (random_string rng 2 16) t
      (λ s. random_string_shape rng 0 2 s fills) (λ s. random_string_shape rng 1 14 s fills)
      (λ s. random_string_shape rng 2 16 s fills)
