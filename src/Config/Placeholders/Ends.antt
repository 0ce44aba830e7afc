-- ===== src/Config/Placeholders/Ends.antt =====
-- `ExpandEnv` of config/config.go: the loop ends on every text.
use acat_go_common.Common.{
  ◌≡◌, ◌≢◌, refl, ℕ, zero, suc, ◌<◌, ◌≤◌, ◌+◌, String, Option, none, some, nat_eq, Bool-cases,
  Option-cases, inl, inr, arith,
}
use mathlib.Core.Path.{subst}
use acat_go_common.Common.Text.{after_prefix}
use acat_go_common.Common.Text.Cut.{cut}
use acat_go_common.Config.Placeholders.{
  size, Expanded, done, failed, out_of_fuel, after, place, expand, expand_env,
}
use Prim.Native.Char.{code}
use Prim.Native.String.{[], ◌∷◌}

after_prefix-size : (p s rest : String) → after_prefix p s ≡ some rest → size p + size rest ≤ size s
unfolding after_prefix
after_prefix-size [] s rest h =
    let e : s ≡ rest = cc h in subst (λ r. 0 + size r ≤ size s) e (omega arith)
after_prefix-size (c ∷ p) [] rest h = absurd (cc h)
after_prefix-size (c ∷ p) (d ∷ s) rest h = elim (Bool-cases (nat_eq (code c) (code d))) [
  | inl e ↦ let ih = after_prefix-size p s rest (rw e at h) in omega (arith, ih)
  | inr e ↦ let no : none ≡ some rest = rw e at h in absurd (cc no)
]

-- What is behind a separator is shorter, by the separator at least.
pub cut-size :
    (sep s : String) (out tail : String)
    → cut sep s ≡ some (out, tail)
    → size sep + size tail ≤ size s
unfolding cut
cut-size sep [] out tail h = absurd (cc h)
cut-size sep (c ∷ s) out tail h = elim (Option-cases (after_prefix sep (c ∷ s))) [
  | inr (rest, e) ↦
      let found : some ("", rest) ≡ some (out, tail) = rw (cut, e) at h in
      let same : rest ≡ tail = cc found in
      subst (λ r. size sep + size r ≤ suc (size s)) same (after_prefix-size sep (c ∷ s) rest e)
  | inl e ↦ elim (Option-cases (cut sep s)) [
    | inl none_left ↦
        let no : none ≡ some (out, tail) = rw (cut, e, none_left) at h in absurd (cc no)
    | inr ((before, behind), later) ↦
        let found : some (c ∷ before, behind) ≡ some (out, tail) = rw (cut, e, later) at h in
        let same : behind ≡ tail = cc found in
        let ih = cut-size sep s before behind later in
        subst (λ r. size sep + size r ≤ suc (size s)) same (omega (arith, ih))
  ]
]

after-ends : (out : String) (e : Expanded) → e ≢ out_of_fuel → after out e ≢ out_of_fuel
after-ends out (done s) h k = cc k
after-ends out (failed e) h k = cc k
after-ends out out_of_fuel h k = h refl

place-ends :
    (name : String) (v : Option String) (e : Expanded)
    → e ≢ out_of_fuel
    → place name v e ≢ out_of_fuel
place-ends name none e h k = cc k
place-ends name (some v) e h k = after-ends v e h k

module _ (env : String → Option String) where
  -- fuel above the length of a text is enough
  expand-ends :
      (fuel : ℕ) (input : String) → size input < fuel → expand env fuel input ≢ out_of_fuel
  unfolding expand
  expand-ends zero input h = absurd (omega (arith, h))
  expand-ends (suc fuel) input h = elim (Option-cases (cut "${" input)) [
    | inl e ↦ rw (expand, e) (λ k. cc k)
    | inr ((out, tail), e) ↦ elim (Option-cases (cut "}" tail)) [
      | inl e' ↦ rw (expand, e, e') (λ k. cc k)
      | inr ((expr, rest), e') ↦
          let p = cut-size "${" input out tail e in
          let q = cut-size "}" tail expr rest e' in
          let ih = expand-ends fuel rest (omega (arith, p, q, h)) in
          rw (expand, e, e') (after-ends out _ (place-ends _ _ (expand env fuel rest) ih))
    ]
  ]

  -- The loop of `ExpandEnv` ends on every text: with a text, or with the error of a placeholder.
  pub expand_env-ends : (input : String) → expand_env env input ≢ out_of_fuel
  unfolding expand_env
  expand_env-ends input = expand-ends (suc (size input)) input (omega arith)
