-- ===== src/Satoken/Keys/Separation.antt =====
-- The four key functions of satoken/logic.go, side by side.
use acat_go_common.Common.{◌≡◌, ◌≢◌, refl, sym, ap, ◌∙◌, ℕ, String, arith}
use Prim.Native.Char.{Char, code}
use Prim.Native.String.{[], ◌∷◌, ◌++◌}
use text.Mathlib.TextLemmas.{append_cancel_left, append_assoc, cons-append}
use acat_go_common.Satoken.Keys.{
  Config, splice, token_key, session_key, token_session_key, last_active_key,
}

splice_tag : (c : Config) (t u v w : String) → splice c t v ≡ splice c u w → t ++ v ≡ u ++ w
unfolding splice
splice_tag c t u v w e =
    append_cancel_left c.login_type _ _
      (append_cancel_left ":" _ _ (append_cancel_left c.token_name _ _ e))

splice_injective : (c : Config) (t v w : String) → splice c t v ≡ splice c t w → v ≡ w
splice_injective c t v w e = append_cancel_left t v w (splice_tag c t t v w e)

abbrev head_code : String → ℕ
head_code [] = 0
head_code (c ∷ s) = code c

head_code-append : (c : Char) (s v : String) → head_code ((c ∷ s) ++ v) ≡ code c
head_code-append c s v = rw cons-append refl

-- Tags that differ in a character behind a common part give different keys.
tags_differ :
    (k : Config) (p : String) (c d : Char) (s t v w : String)
    → code c ≢ code d
    → splice k (p ++ (c ∷ s)) v ≢ splice k (p ++ (d ∷ t)) w
tags_differ k p c d s t v w n e =
    let whole = splice_tag k (p ++ (c ∷ s)) (p ++ (d ∷ t)) v w e in
    let behind : p ++ ((c ∷ s) ++ v) ≡ p ++ ((d ∷ t) ++ w) =
      sym (append_assoc p (c ∷ s) v) ∙ whole ∙ append_assoc p (d ∷ t) w in
    let heads = ap head_code (append_cancel_left p _ _ behind) in
    n (sym (head_code-append c s v) ∙ heads ∙ head_code-append d t w)

module _ (c : Config) (v w : String) where
  -- keys of two kinds
  pub keys_apart :
      (token_key c v ≢ session_key c w)
      × (token_key c v ≢ token_session_key c w)
      × (token_key c v ≢ last_active_key c w)
      × (session_key c v ≢ token_session_key c w)
      × (session_key c v ≢ last_active_key c w)
      × (token_session_key c v ≢ last_active_key c w)
  unfolding token_key session_key token_session_key last_active_key
  keys_apart = (
    tags_differ c ":" "t" "s" "oken:" "ession:" v w (omega arith),
    tags_differ c ":token" ":" "-" "" "session:" v w (omega arith),
    tags_differ c ":" "t" "l" "oken:" "ast-active:" v w (omega arith),
    tags_differ c ":" "s" "t" "ession:" "oken-session:" v w (omega arith),
    tags_differ c ":" "s" "l" "ession:" "ast-active:" v w (omega arith),
    tags_differ c ":" "t" "l" "oken-session:" "ast-active:" v w (omega arith),
  )

  -- keys of one kind
  pub keys_injective :
      (token_key c v ≡ token_key c w → v ≡ w)
      × (session_key c v ≡ session_key c w → v ≡ w)
      × (token_session_key c v ≡ token_session_key c w → v ≡ w)
      × (last_active_key c v ≡ last_active_key c w → v ≡ w)
  unfolding token_key session_key token_session_key last_active_key
  keys_injective = (
    splice_injective c _ v w,
    splice_injective c _ v w,
    splice_injective c _ v w,
    splice_injective c _ v w,
  )

-- the key functions
pub data Kind : Type 0 where
  token session token_session last_active : Kind

abbrev pub key_of : Kind → Config → String → String
key_of token = token_key
key_of session = session_key
key_of token_session = token_session_key
key_of last_active = last_active_key

-- Under one configuration, two keys are equal only if they are of the same kind and of the same
-- token value or login id, whatever these are: colons in them included.
pub keys_separate :
    (c : Config) (k l : Kind) (v w : String) → key_of k c v ≡ key_of l c w → (k ≡ l) × (v ≡ w)
keys_separate c token token v w e = (refl, (keys_injective c v w).0 e)
keys_separate c session session v w e = (refl, (keys_injective c v w).1 e)
keys_separate c token_session token_session v w e = (refl, (keys_injective c v w).2 e)
keys_separate c last_active last_active v w e = (refl, (keys_injective c v w).3 e)
keys_separate c token session v w e = absurd ((keys_apart c v w).0 e)
keys_separate c session token v w e = absurd ((keys_apart c w v).0 (sym e))
keys_separate c token token_session v w e = absurd ((keys_apart c v w).1 e)
keys_separate c token_session token v w e = absurd ((keys_apart c w v).1 (sym e))
keys_separate c token last_active v w e = absurd ((keys_apart c v w).2 e)
keys_separate c last_active token v w e = absurd ((keys_apart c w v).2 (sym e))
keys_separate c session token_session v w e = absurd ((keys_apart c v w).3 e)
keys_separate c token_session session v w e = absurd ((keys_apart c w v).3 (sym e))
keys_separate c session last_active v w e = absurd ((keys_apart c v w).4 e)
keys_separate c last_active session v w e = absurd ((keys_apart c w v).4 (sym e))
keys_separate c token_session last_active v w e = absurd ((keys_apart c v w).5 e)
keys_separate c last_active token_session v w e = absurd ((keys_apart c w v).5 (sym e))
