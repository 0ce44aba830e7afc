-- ===== src/Exec.antt =====
-- Go functions that return a value and an error, and methods that also change a state. What was
-- written before an error stays written, so the state comes back beside the error too.
pub mod Triple
use acat_go_common.Common.{◌≡◌, refl, ◌⊎◌, inl, inr}
use acat_go_common.Apperr.{GoError}

-- `(value, nil)` or `(_, err)`
pub data Return {ℓ} (A : Type ℓ) : Type ℓ where
  ok : A → Return A
  err : GoError → Return A

pub Return-cases {ℓ} :
    {A : Type ℓ} (r : Return A) → ((e : GoError) × (r ≡ err e)) ⊎ ((a : A) × (r ≡ ok a))
Return-cases (err e) = inl (e, refl)
Return-cases (ok a) = inr (a, refl)

abbrev pub Exec {ℓ} : Type ℓ → Type ℓ → Type ℓ
Exec S A = S → Return A × S

module _ {ℓ} {S A : Type ℓ} where
  pub pure : A → Exec S A
  pure a s = (ok a, s)

  -- `return err`
  pub raise : GoError → Exec S A
  raise e s = (err e, s)

  -- a call that does not touch the state
  pub lift : Return A → Exec S A
  lift r s = (r, s)

module _ {ℓ} {S A B : Type ℓ} where
  abbrev resume : Return A → S → (A → Exec S B) → (GoError → Exec S B) → Return B × S
  resume (ok a) s f g = f a s
  resume (err e) s f g = g e s

  -- A call whose error the code looks at: one continuation for each outcome. Opening this opens
  -- `pure`, `raise` and `lift` too.
  unfoldable pub try : Exec S A → (A → Exec S B) → (GoError → Exec S B) → Exec S B
  unfolding pure raise lift
  try m f g s = let (r, s') = m s in resume r s' f g

  infixl 5 ◌>>=◌ ◌>>◌
  -- `if err != nil { return err }` behind a call
  unfoldable pub ◌>>=◌ : Exec S A → (A → Exec S B) → Exec S B
  unfolding try
  m >>= f = try m f raise

  abbrev pub ◌>>◌ : Exec S A → Exec S B → Exec S B
  m >> n = m >>= λ _. n
