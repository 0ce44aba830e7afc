-- ===== src/Apperr/Chain.antt =====
-- What wrapping does to an error: the classification of apperr/apperr.go and apperr/business.go
-- against an independent description of the chain.
use acat_go_common.Common.{
  ◌≡◌, ◌⊎◌, inl, inr, refl, Option, none, some, List, [], ◌∷◌, String, Option-cases,
}
use mathlib.Core.Path.{subst}
use mathlib.Core.Option.{some-injective}
use acat_go_common.Apperr.{
  GoError, Error, Business, Sentinel, wrapped, joined, error, error_caused, business_caused,
  or_else, as_error, is_business, is, http_status_of, code_of,
}

-- The parts of a chain, in the order in which `errors.As` visits them: the error itself first.
pub data Visits : GoError → GoError → Type 0 where
  self : {e : GoError} → Visits e e
  under_wrap : {pre post : String} {e t : GoError} → Visits e t → Visits (wrapped pre e post) t
  left : {a b t : GoError} → Visits a t → Visits (joined a b) t
  right : {a b t : GoError} → Visits b t → Visits (joined a b) t
  under_error : {e : Error} {c t : GoError} → Visits c t → Visits (error_caused e c) t
  under_business : {b : Business} {c t : GoError} → Visits c t → Visits (business_caused b c) t

-- Layers of `fmt.Errorf("…%w…")` round an error.
abbrev pub wrap_all : List (String × String) → GoError → GoError
wrap_all [] e = e
wrap_all ((pre, post) ∷ layers) e = wrapped pre (wrap_all layers e) post

pub as_error-wrap_all :
    (layers : List (String × String)) (e : GoError) → as_error (wrap_all layers e) ≡ as_error e
unfolding as_error
as_error-wrap_all [] e = refl
as_error-wrap_all ((pre, post) ∷ layers) e = as_error-wrap_all layers e

pub is_business-wrap_all :
    (layers : List (String × String)) (e : GoError)
    → is_business (wrap_all layers e) ≡ is_business e
unfolding is_business
is_business-wrap_all [] e = refl
is_business-wrap_all ((pre, post) ∷ layers) e = is_business-wrap_all layers e

is-wrap_all :
    (layers : List (String × String)) (e : GoError) (t : Sentinel)
    → is (wrap_all layers e) t ≡ is e t
unfolding is
is-wrap_all [] e t = refl
is-wrap_all ((pre, post) ∷ layers) e t = is-wrap_all layers e t

-- However many `%w` layers an error is wrapped in, its HTTP status, its business code and every
-- comparison with a package variable stay what they were.
pub wrap_all_classification :
    (layers : List (String × String)) (e : GoError) (t : Sentinel)
    → (http_status_of (some (wrap_all layers e)) ≡ http_status_of (some e))
      × (code_of (some (wrap_all layers e)) ≡ code_of (some e))
      × (is (wrap_all layers e) t ≡ is e t)
unfolding http_status_of code_of
wrap_all_classification layers e t =
    (rw as_error-wrap_all, rw (as_error-wrap_all, is_business-wrap_all), is-wrap_all layers e t)

-- Does a part of a chain carry the `*Error` `e`?
pub data Carries : GoError → Error → Type 0 where
  bare : {e : Error} → Carries (error e) e
  caused : {e : Error} {c : GoError} → Carries (error_caused e c) e

Carries-of_some : (t : GoError) (f e : Error) → Carries t f → some f ≡ some e → Carries t e
Carries-of_some t f e c h = subst (λ x. Carries t x) (some-injective f e h) c

as_error_sound :
    (err : GoError) (e : Error) → as_error err ≡ some e → (t : GoError) × Visits err t × Carries t e
unfolding as_error
as_error_sound (wrapped pre c post) e h =
    let (t, v, k) = as_error_sound c e h in (t, under_wrap v, k)
as_error_sound (joined a b) e h = elim (Option-cases (as_error a)) [
  | inl missed ↦ let (t, v, k) = as_error_sound b e (rw missed at h) in (t, right v, k)
  | inr (f, found) ↦
      let (t, v, k) = as_error_sound a f found in
      (t, left v, Carries-of_some t f e k (rw found at h))
]
as_error_sound (error f) e h = (error f, self, Carries-of_some (error f) f e bare h)
as_error_sound (error_caused f c) e h =
    (error_caused f c, self, Carries-of_some (error_caused f c) f e caused h)
as_error_sound (business_caused b c) e h =
    let (t, v, k) = as_error_sound c e h in (t, under_business v, k)
as_error_sound _ e h = cc

as_error_carried : (t : GoError) (e : Error) → Carries t e → (f : Error) × (as_error t ≡ some f)
unfolding as_error
as_error_carried t e bare = (e, refl)
as_error_carried t e caused = (e, refl)

or_else_left :
    (a b : Option Error) → ((f : Error) × (a ≡ some f)) → (f : Error) × (or_else a b ≡ some f)
or_else_left a b (f, h) = (f, rw h)

or_else_right :
    (a b : Option Error) → ((f : Error) × (b ≡ some f)) → (f : Error) × (or_else a b ≡ some f)
or_else_right none b h = h
or_else_right (some e) b h = (e, refl)

as_error_complete :
    {err t : GoError} (e : Error)
    → Visits err t
    → Carries t e
    → (f : Error) × (as_error err ≡ some f)
unfolding as_error
as_error_complete {t} e self c = as_error_carried t e c
as_error_complete e (under_wrap v) c = as_error_complete e v c
as_error_complete e (left {a} {b} v) c =
    or_else_left (as_error a) (as_error b) (as_error_complete e v c)
as_error_complete e (right {a} {b} v) c =
    or_else_right (as_error a) (as_error b) (as_error_complete e v c)
as_error_complete e (under_error {e = x} v) c = (x, refl)
as_error_complete e (under_business v) c = as_error_complete e v c

none_carried :
    (err t : GoError) (e : Error) → as_error err ≡ none → (Visits err t × Carries t e) → ⊥
none_carried err t e missed (v, c) = let (f, hit) = as_error_complete e v c in cc (missed, hit)

-- `As` finds an `*Error` that stands in the chain, or else no part of the chain, at any depth, is
-- one: under a wrapping, on either side of a join, or in a cause.
pub as_error_decides :
    (err : GoError)
    → ((e : Error) × (as_error err ≡ some e) × ((t : GoError) × Visits err t × Carries t e))
      ⊎ ((as_error err ≡ none) × ((t : GoError) (e : Error) → ¬ (Visits err t × Carries t e)))
as_error_decides err = elim (Option-cases (as_error err)) [
  | inl missed ↦ inr (missed, λ t e. none_carried err t e missed)
  | inr (e, hit) ↦ inl (e, hit, as_error_sound err e hit)
]
