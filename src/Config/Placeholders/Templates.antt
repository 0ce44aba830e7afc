-- ===== src/Config/Placeholders/Templates.antt =====
-- `ExpandEnv` of config/config.go on a text that is put together from literals and placeholders.
use acat_go_common.Common.{
  ◌≡◌, refl, ap, ◌∙◌, ℕ, zero, suc, ◌<◌, ◌+◌, String, Option, none, some, arith,
}
use acat_go_common.Common.Text.Cut.{cut}
use acat_go_common.Apperr.{plain}
use acat_go_common.Config.Placeholders.Cuts.{cut_open, cut_joined}
use acat_go_common.Config.Placeholders.{
  size, Expanded, done, failed, after, place, name_of, fallback_of, value_of, expand, expand_env,
}
use Prim.Native.String.{[], ◌∷◌, ◌++◌}
use text.Mathlib.TextLemmas.{nil-append, cons-append}

-- A text: literals with a placeholder behind each, and a last literal.
pub data Template : Type 0 where
  last : String → Template
  placeholder : String → String → Option String → Template → Template

-- what stands between the braces
abbrev pub inner : String → Option String → String
inner name none = name
inner name (some fallback) = name ++ ":" ++ fallback

unfoldable pub render : Template → String
render (last literal) = literal
render (placeholder literal name fallback t) =
    literal ++ ("${" ++ (inner name fallback ++ ("}" ++ render t)))

-- What a template stands for: a text, or the name of a placeholder without a value.
pub data Meaning : Type 0 where
  reads : String → Meaning
  no_value : String → Meaning

abbrev pub behind : String → Meaning → Meaning
behind s (reads rest) = reads (s ++ rest)
behind s (no_value name) = no_value name

-- A literal and a placeholder, where the environment has `found`, before the rest: the environment
-- counts before the default, and a placeholder with neither before all that stands behind it.
abbrev meant : String → String → Option String → Option String → Meaning → Meaning
meant literal name (some v) fallback rest = behind literal (behind v rest)
meant literal name none (some default) rest = behind literal (behind default rest)
meant literal name none none rest = no_value name

unfoldable pub evaluate : (String → Option String) → Template → Meaning
evaluate env (last literal) = reads literal
evaluate env (placeholder literal name fallback t) =
    meant literal name (env name) fallback (evaluate env t)

-- how `ExpandEnv` tells it
abbrev pub told : Meaning → Expanded
told (reads s) = done s
told (no_value name) = failed (plain (("配置占位符 " ++ name) ++ " 未提供环境变量且无默认值"))

-- No literal holds the start of a placeholder, no placeholder a brace that closes it, no name a colon.
unfoldable pub IsReadable : Template → Type 0
unfolding cut
IsReadable (last literal) = cut "${" literal ≡ none
IsReadable (placeholder literal name fallback t) =
    (cut "${" literal ≡ none)
    × (cut "}" (inner name fallback) ≡ none)
    × (cut ":" name ≡ none)
    × IsReadable t

-- a name and a default are found again
inner_parts :
    (name : String) (fallback : Option String)
    → cut ":" name ≡ none
    → (name_of (inner name fallback) (cut ":" (inner name fallback)) ≡ name)
      × (fallback_of (cut ":" (inner name fallback)) ≡ fallback)
inner_parts name none h = (rw h, rw h)
inner_parts name (some fallback) h =
    let e : cut ":" (name ++ ":" ++ fallback) ≡ some (name, fallback) =
      cut_joined _ name fallback h in
    (rw e, rw e)

size-append : (s t : String) → size (s ++ t) ≡ size s + size t
size-append [] t = rw nil-append (omega arith)
size-append (c ∷ s) t = let ih = size-append s t in rw cons-append (omega (arith, ih))

-- what stands behind a placeholder is shorter
size-placeholder :
    (literal inside rest : String)
    → size rest < size (literal ++ ("${" ++ (inside ++ ("}" ++ rest))))
size-placeholder literal inside rest = omega (
  arith,
  size-append literal ("${" ++ (inside ++ ("}" ++ rest))),
  size-append "${" (inside ++ ("}" ++ rest)),
  size-append inside ("}" ++ rest),
  size-append "}" rest,
)

after-told : (s : String) (m : Meaning) → after s (told m) ≡ told (behind s m)
after-told s (reads rest) = refl
after-told s (no_value name) = refl

-- The value that the code places is the one of the description.
place-told :
    (literal name : String) (found fallback : Option String) (m : Meaning)
    → after literal (place name (value_of found fallback) (told m))
      ≡ told (meant literal name found fallback m)
place-told literal name (some v) fallback m =
    ap (after literal) (after-told v m) ∙ after-told literal (behind v m)
place-told literal name none (some v) m =
    ap (after literal) (after-told v m) ∙ after-told literal (behind v m)
place-told literal name none none m = refl

module _ (env : String → Option String) where
  -- one round reads one placeholder
  expand-placeholder :
      (fuel : ℕ) (literal name : String) (fallback : Option String) (rest : String)
      → cut "${" literal ≡ none
      → cut "}" (inner name fallback) ≡ none
      → cut ":" name ≡ none
      → expand env (suc fuel) (literal ++ ("${" ++ (inner name fallback ++ ("}" ++ rest))))
        ≡ after literal (place name (value_of (env name) fallback) (expand env fuel rest))
  unfolding expand
  expand-placeholder fuel literal name fallback rest l i n =
      let open_cut = cut_open literal (inner name fallback ++ ("}" ++ rest)) l in
      let closed : cut "}" (inner name fallback ++ ("}" ++ rest))
          ≡ some (inner name fallback, rest) =
        cut_joined _ (inner name fallback) rest i in
      let (p, q) = inner_parts name fallback n in rw (expand, open_cut, closed, p, q)

  expand-render :
      (fuel : ℕ) (t : Template)
      → IsReadable t
      → size (render t) < fuel
      → expand env fuel (render t) ≡ told (evaluate env t)
  unfolding IsReadable render evaluate expand
  expand-render zero t r h = absurd (omega (arith, h))
  expand-render (suc fuel) (last literal) r h = rw (expand, r)
  expand-render (suc fuel) (placeholder literal name fallback t) (l, i, n, r) h =
      let ih =
        expand-render fuel t r
          (omega (arith, h, size-placeholder literal (inner name fallback) (render t))) in
      expand-placeholder fuel literal name fallback (render t) l i n
      ∙ rw ih (place-told literal name (env name) fallback (evaluate env t))

  -- A text of literals and placeholders, none of which is cut short by what it holds, expands to the
  -- literals with the placeholders' values between them, or to the error of the first placeholder
  -- that has no value. A value is the environment's, or else the default, and it is not expanded
  -- again.
  pub expand_env-render :
      (t : Template) → IsReadable t → expand_env env (render t) ≡ told (evaluate env t)
  unfolding expand_env
  expand_env-render t r = expand-render (suc (size (render t))) t r (omega arith)
