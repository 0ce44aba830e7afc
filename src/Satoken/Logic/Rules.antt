-- ===== src/Satoken/Logic/Rules.antt =====
-- Triples for the calls of a healthy store, one key at a time.
use mathlib.Core.Path.{subst}
use acat_go_common.Common.{
  ◌≡◌, ◌≢◌, refl, sym, ap, ◌∙◌, String, Option, none, some, arith, eq_iff, eq_refl,
}
use acat_go_common.Common.Int.{ℤ}
use acat_go_common.Apperr.{GoError, sentinel, not_found}
use acat_go_common.Exec.{Return, Exec, ok, err}
use acat_go_common.Exec.Triple.{Outcome, Triple, Keeps, Triple-weaken}
use acat_go_common.Satoken.Store.{Store}
use acat_go_common.Satoken.Store.Healthy.{found, IsHealthy}

Outcome-same :
    {S A : Type 0} (P : S → Type 0) (r : Return A) (s : S) → P s → Outcome (λ _. P) (λ _. P) r s
Outcome-same P (ok a) s p = p
Outcome-same P (err e) s p = p

Outcome-of_answer :
    {S A : Type 0} (Q : A → S → Type 0) (E : GoError → S → Type 0) (r r' : Return A) (s : S)
    → r ≡ r'
    → Outcome Q E r' s
    → Outcome Q E r s
Outcome-of_answer Q E r r' s e o = subst (λ x. Outcome Q E x s) (sym e) o

-- an action that does not fail, and whose value is known
pub Outcome-value :
    {S A : Type 0} (r : Return A) (a : A) (s : S) → Outcome (λ x _. x ≡ a) (λ _ _. ⊥) r s → r ≡ ok a
Outcome-value (ok x) a s h = ap ok h
Outcome-value (err e) a s h = absurd h

-- the key has this value, or none
abbrev pub Sees : {S : Type 0} → (S → String → Option String) → String → Option String → S → Type 0
Sees view j o s = view s j ≡ o

found_fails :
    {S : Type 0} (o : Option String) (s : S)
    → Outcome (λ _ _. Unit {0}) (λ e _. e ≡ sentinel not_found) (found o) s
found_fails none s = refl
found_fails (some v) s = tt

-- nothing is asked, nothing is promised
pub anything :
    {S A : Type 0} (P : S → Type 0) (m : Exec S A) → Triple P m (λ _ _. Unit {0}) (λ _ _. Unit {0})
anything P m = record { at = λ s p. let (r, s') = m s in Outcome-same (λ _. Unit {0}) r s' tt }

under_premise :
    {S A : Type 0} (X : Type 0) (P : S → Type 0) (r : Return A) (s : S)
    → (X → Outcome (λ _. P) (λ _. P) r s)
    → Outcome (λ _ s'. X → P s') (λ _ _. Unit {0}) r s
under_premise X P (ok a) s h = h
under_premise X P (err e) s h = tt

-- what is kept is kept under a premise, too
pub Keeps-premise :
    {S A : Type 0} (X : Type 0) {P : S → Type 0} {m : Exec S A}
    → Keeps P m
    → Triple (λ s. X → P s) m (λ _ s. X → P s) (λ _ _. Unit {0})
Keeps-premise X {P} {m} k = record {
  at = λ s p. let (r, s') = m s in under_premise X P r s' (λ x. k.at s (p x));
}

pub forget_errors :
    {S A : Type 0} {P : S → Type 0} {Q : A → S → Type 0} {E : GoError → S → Type 0} {m : Exec S A}
    → Triple P m Q E
    → Triple P m Q (λ _ _. Unit {0})
forget_errors t = Triple-weaken (λ s p. p) (λ a s q. q) (λ e s q. tt) t

module _ {S : Type 0} {store : Store S} {view : S → String → Option String} {Fits : ℤ → Type 0}
    (h : IsHealthy store view Fits) where
  pub get-Keeps : (k j : String) (o : Option String) → Keeps (Sees view j o) (store.get k)
  get-Keeps k j o = record {
    at = λ s p.
        Outcome-same (Sees view j o) (store.get k s).0 (store.get k s).1 (h.get_keeps k j s ∙ p);
  }

  -- a read of a key that is there
  pub get-found :
      (E : GoError → S → Type 0) (k v : String)
      → Triple (Sees view k (some v)) (store.get k) (λ a s. (a ≡ v) × Sees view k (some v) s) E
  get-found E k v = record {
    at = λ s p.
        Outcome-of_answer (λ a s'. (a ≡ v) × Sees view k (some v) s') E (store.get k s).0 (ok v)
          (store.get k s).1 (h.get_answer k s ∙ ap found p) (refl, h.get_keeps k k s ∙ p);
  }

  -- a read fails only with `ErrNotFound`
  pub get-fails :
      (k : String)
      → Triple (λ _. Unit {0}) (store.get k) (λ _ _. Unit) (λ e _. e ≡ sentinel not_found)
  get-fails k = record {
    at = λ s p.
        Outcome-of_answer (λ _ _. Unit) (λ e _. e ≡ sentinel not_found) (store.get k s).0
          (found (view s k)) (store.get k s).1 (h.get_answer k s)
          (found_fails (view s k) (store.get k s).1);
  }

  -- a read of a key that is not there
  pub get-missing :
      (k : String)
      → Triple (Sees view k none) (store.get k) (λ _ _. ⊥) (λ e _. e ≡ sentinel not_found)
  get-missing k = record {
    at = λ s p.
        Outcome-of_answer (λ _ _. ⊥) (λ e _. e ≡ sentinel not_found) (store.get k s).0 (found none)
          (store.get k s).1 (h.get_answer k s ∙ ap found p) refl;
  }

  pub set-Keeps_other :
      (k j v : String) (t : ℤ) (o : Option String) → k ≢ j → Keeps (Sees view j o) (store.set k v t)
  set-Keeps_other k j v t o n = record {
    at = λ s p.
        Outcome-same (Sees view j o) (store.set k v t s).0 (store.set k v t s).1
          (h.set_keeps_other k j v t s n ∙ p);
  }

  -- a write leaves a key alone if it is another one
  pub set-Sees_premise :
      (k j v : String) (t : ℤ) (o : Option String)
      → Triple (Sees view j o) (store.set k v t) (λ _ s. k ≢ j → Sees view j o s) (λ _ _. Unit {0})
  set-Sees_premise k j v t o = record {
    at = λ s p.
        under_premise (k ≢ j) (Sees view j o) (store.set k v t s).0 (store.set k v t s).1
          (λ n. (set-Keeps_other k j v t o n).at s p);
  }

  -- a write that fits, whatever was there
  pub set-Sees :
      (P : S → Type 0) (E : GoError → S → Type 0) (k v : String) (t : ℤ)
      → Fits t
      → Triple P (store.set k v t) (λ _. Sees view k (some v)) E
  set-Sees P E k v t fits = record {
    at = λ s p.
        Outcome-of_answer (λ _. Sees view k (some v)) E (store.set k v t s).0 (ok tt)
          (store.set k v t s).1 (h.set_answer k v t s)
          (h.set_writes k k v t s fits ∙ rw (eq_refl k));
  }

  pub delete-Keeps-none : (k j : String) → Keeps (Sees view j none) (store.delete k)
  delete-Keeps-none k j = record {
    at = λ s p.
        Outcome-same (Sees view j none) (store.delete k s).0 (store.delete k s).1
          (h.delete_drops k j s ∙ ground (arith, p));
  }

  pub delete-Keeps_other :
      (k j : String) (o : Option String) → k ≢ j → Keeps (Sees view j o) (store.delete k)
  delete-Keeps_other k j o n = record {
    at = λ s p.
        Outcome-same (Sees view j o) (store.delete k s).0 (store.delete k s).1
          (h.delete_drops k j s ∙ ground (arith, eq_iff k j, p));
  }

  pub delete-Sees :
      (P : S → Type 0) (E : GoError → S → Type 0) (k : String)
      → Triple P (store.delete k) (λ _. Sees view k none) E
  delete-Sees P E k = record {
    at = λ s p.
        Outcome-of_answer (λ _. Sees view k none) E (store.delete k s).0 (ok tt)
          (store.delete k s).1 (h.delete_answer k s) (h.delete_drops k k s ∙ rw (eq_refl k));
  }

  -- a deletion does not fail
  pub delete-returns :
      (E : GoError → S → Type 0) (k : String)
      → Triple (λ _. Unit {0}) (store.delete k) (λ _ _. Unit {0}) E
  delete-returns E k = record {
    at = λ s p.
        Outcome-of_answer (λ _ _. Unit {0}) E (store.delete k s).0 (ok tt) (store.delete k s).1
          (h.delete_answer k s) tt;
  }
