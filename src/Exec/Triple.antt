-- ===== src/Exec/Triple.antt =====
-- Hoare triples for `Exec`, one rule for each way to build an action.
use acat_go_common.Common.{◌≡◌, refl, Bool, true, false, if◌then◌else◌}
use acat_go_common.Apperr.{GoError}
use acat_go_common.Exec.{Return, Exec, ok, err, pure, raise, lift, try, ◌>>=◌}

-- What holds of a value, or of an error, and of the state that comes with it.
abbrev pub Outcome {ℓ} :
    {S A : Type ℓ} → (A → S → Type ℓ) → (GoError → S → Type ℓ) → Return A → S → Type ℓ
Outcome Q E (ok a) s = Q a s
Outcome Q E (err e) s = E e s

-- From a state with `P` the action leads to `Q` of its value and state, or to `E` of its error.
pub record Triple {ℓ} {S A : Type ℓ} (P : S → Type ℓ) (m : Exec S A) (Q : A → S → Type ℓ)
    (E : GoError → S → Type ℓ) : Type ℓ where
  pub at : (s : S) → P s → Outcome Q E (m s).0 (m s).1

-- `P` stays true, whether the action returns or fails.
abbrev pub Keeps {ℓ} : {S A : Type ℓ} → (S → Type ℓ) → Exec S A → Type ℓ
Keeps P m = Triple P m (λ _. P) (λ _. P)

module _ {ℓ} {S A : Type ℓ} {P : S → Type ℓ} {Q : A → S → Type ℓ} {E : GoError → S → Type ℓ} where
  pub Triple-pure : (a : A) → ((s : S) → P s → Q a s) → Triple P (pure a) Q E
  unfolding pure
  Triple-pure a h = record { at = h }

  pub Triple-raise : (e : GoError) → ((s : S) → P s → E e s) → Triple P (raise e) Q E
  unfolding raise
  Triple-raise e h = record { at = h }

  pub Triple-lift :
      (r : Return A)
      → ((a : A) → r ≡ ok a → (s : S) → P s → Q a s)
      → ((e : GoError) → r ≡ err e → (s : S) → P s → E e s)
      → Triple P (lift r) Q E
  unfolding lift
  Triple-lift (ok a) h k = record { at = h a refl }
  Triple-lift (err e) h k = record { at = k e refl }

  pub Triple-if :
      (b : Bool) {m n : Exec S A}
      → (b ≡ true → Triple P m Q E)
      → (b ≡ false → Triple P n Q E)
      → Triple P (if b then m else n) Q E
  Triple-if true h k = h refl
  Triple-if false h k = k refl

module _ {ℓ} {S A B : Type ℓ} {R : A → S → Type ℓ} {F : GoError → S → Type ℓ} {Q : B → S → Type ℓ}
    {E : GoError → S → Type ℓ} where
  resume-Outcome :
      {f : A → Exec S B} {g : GoError → Exec S B} (r : Return A) (s : S)
      → ((a : A) → Triple (R a) (f a) Q E)
      → ((e : GoError) → Triple (F e) (g e) Q E)
      → Outcome R F r s
      → Outcome Q E (try (lift r) f g s).0 (try (lift r) f g s).1
  unfolding try
  resume-Outcome (ok a) s h k p = (h a).at s p
  resume-Outcome (err e) s h k p = (k e).at s p

module _ {ℓ} {S A B : Type ℓ} {P : S → Type ℓ} {R : A → S → Type ℓ} {F : GoError → S → Type ℓ}
    {Q : B → S → Type ℓ} {E : GoError → S → Type ℓ} where
  pub Triple-try :
      {m : Exec S A} {f : A → Exec S B} {g : GoError → Exec S B}
      → Triple P m R F
      → ((a : A) → Triple (R a) (f a) Q E)
      → ((e : GoError) → Triple (F e) (g e) Q E)
      → Triple P (try m f g) Q E
  unfolding try
  Triple-try {m} t h k = record {
    at = λ s p. let (r, s') = m s in resume-Outcome r s' h k (t.at s p);
  }

module _ {ℓ} {S A B : Type ℓ} {P : S → Type ℓ} {R : A → S → Type ℓ} {Q : B → S → Type ℓ}
    {E : GoError → S → Type ℓ} where
  pub Triple-bind :
      {m : Exec S A} {f : A → Exec S B}
      → Triple P m R E
      → ((a : A) → Triple (R a) (f a) Q E)
      → Triple P (m >>= f) Q E
  unfolding ◌>>=◌
  Triple-bind t h = Triple-try t h (λ e. record { at = λ s p. p })

Outcome-weaken {ℓ} :
    {S A : Type ℓ} (Q Q' : A → S → Type ℓ) (E E' : GoError → S → Type ℓ) (r : Return A) (s : S)
    → ((a : A) → Q a s → Q' a s)
    → ((e : GoError) → E e s → E' e s)
    → Outcome Q E r s
    → Outcome Q' E' r s
Outcome-weaken Q Q' E E' (ok a) s h k p = h a p
Outcome-weaken Q Q' E E' (err e) s h k p = k e p

module _ {ℓ} {S A : Type ℓ} {P P' : S → Type ℓ} {Q Q' : A → S → Type ℓ}
    {E E' : GoError → S → Type ℓ} where
  pub Triple-weaken :
      {m : Exec S A}
      → ((s : S) → P' s → P s)
      → ((a : A) (s : S) → Q a s → Q' a s)
      → ((e : GoError) (s : S) → E e s → E' e s)
      → Triple P m Q E
      → Triple P' m Q' E'
  Triple-weaken {m} pre h k t = record {
    at = λ s p.
        let (r, s') = m s in
        Outcome-weaken Q Q' E E' r s' (λ a. h a s') (λ e. k e s') (t.at s (pre s p));
  }

module _ {ℓ} {S A : Type ℓ} {P : S → Type ℓ} where
  pub Keeps-pure : (a : A) → Keeps P (pure a)
  Keeps-pure a = Triple-pure a (λ s p. p)

  pub Keeps-raise : (e : GoError) → Keeps P (raise {A = A} e)
  Keeps-raise e = Triple-raise e (λ s p. p)

  pub Keeps-lift : (r : Return A) → Keeps P (lift r)
  Keeps-lift r = Triple-lift r (λ a h s p. p) (λ e h s p. p)

  pub Keeps-if : (b : Bool) {m n : Exec S A} → Keeps P m → Keeps P n → Keeps P (if b then m else n)
  Keeps-if true km kn = km
  Keeps-if false km kn = kn

Outcome-both {ℓ} :
    {S A : Type ℓ} (Q : A → S → Type ℓ) (E : GoError → S → Type ℓ) (R : S → Type ℓ) (r : Return A)
    (s : S)
    → Outcome Q E r s
    → Outcome (λ _. R) (λ _. R) r s
    → Outcome (λ a s'. Q a s' × R s') (λ e s'. E e s' × R s') r s
Outcome-both Q E R (ok a) s p q = (p, q)
Outcome-both Q E R (err e) s p q = (p, q)

module _ {ℓ} {S A : Type ℓ} {P R : S → Type ℓ} {Q : A → S → Type ℓ} {E : GoError → S → Type ℓ} where
  -- what is kept holds beside the rest
  pub Triple-beside :
      {m : Exec S A}
      → Triple P m Q E
      → Keeps R m
      → Triple (λ s. P s × R s) m (λ a s. Q a s × R s) (λ e s. E e s × R s)
  Triple-beside {m} t k = record {
    at = λ s p. let (r, s') = m s in Outcome-both Q E R r s' (t.at s p.0) (k.at s p.1);
  }

module _ {ℓ} {S A : Type ℓ} {X : Type ℓ} {P : S → Type ℓ} {Q : A → S → Type ℓ}
    {E : GoError → S → Type ℓ} where
  -- a fact about no state moves out of the precondition
  pub Triple-fact : {m : Exec S A} → (X → Triple P m Q E) → Triple (λ s. X × P s) m Q E
  Triple-fact h = record { at = λ s p. (h p.0).at s p.1 }
