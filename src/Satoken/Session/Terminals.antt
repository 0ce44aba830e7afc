-- ===== src/Satoken/Session/Terminals.antt =====
-- The terminal list of a session: numbering, distinct tokens, and what adding and removing do.
use acat_go_common.Common.{
  ◌≡◌, ◌≢◌, refl, String, ◌+◌, ◌-◌, ◌≤◌, ◌<◌, ◌^◌, false, List, [], ◌∷◌, ◌++◌, arith, All,
  All-append, ◌==◌, eq_iff, eq_refl, length, not, ◌&&◌, Bool-cases, inl, inr, if◌then◌else◌,
}
use acat_go_common.Common.Int.{ℤ, pos, ◌+ℤ◌, ◌≤ℤ◌, ◌<ℤ◌, pos_part, wrap64, wrap64_in_range}
use acat_go_common.Satoken.Session.{
  TerminalInfo, Session, has_token, add_terminal, drop_token, remove_terminal,
}

-- Indices grow along the list, from above `low`.
abbrev pub Ascending : ℤ → List TerminalInfo → Type 0
Ascending low [] = Unit
Ascending low (t ∷ ts) = (low <ℤ t.index) × Ascending t.index ts

-- No two terminals share a token, unless it is empty.
abbrev pub HasDistinctTokens : List TerminalInfo → Type 0
HasDistinctTokens [] = Unit
HasDistinctTokens (t ∷ ts) =
    (t.token_value ≢ "" → has_token t.token_value ts ≡ false) × HasDistinctTokens ts

-- What `AddTerminal` maintains: indices grow from 1, none passes the history count, and tokens
-- are distinct.
pub record IsNumbered (s : Session) : Type 0 where
  pub ascending : Ascending (pos 0) s.terminal_list
  pub counted : All (λ t. t.index ≤ℤ s.history_terminal_count) s.terminal_list
  pub nonneg : pos 0 ≤ℤ s.history_terminal_count
  pub distinct : HasDistinctTokens s.terminal_list

Ascending-concat :
    (low high : ℤ) (ts : List TerminalInfo) (t : TerminalInfo)
    → Ascending low ts
    → All (λ u. u.index ≤ℤ high) ts
    → low ≤ℤ high
    → high <ℤ t.index
    → Ascending low (ts ++ t ∷ [])
Ascending-concat low high [] t a b l h = (omega arith, tt)
Ascending-concat low high (u ∷ ts) t (p, a) (q, b) l h =
    (p, Ascending-concat u.index high ts t a b q h)

All-weaken :
    (a b : ℤ) (ts : List TerminalInfo)
    → a ≤ℤ b
    → All (λ u. u.index ≤ℤ a) ts
    → All (λ u. u.index ≤ℤ b) ts
All-weaken a b [] h _ = tt
All-weaken a b (u ∷ ts) h (p, k) = (omega arith, All-weaken a b ts h k)

has_token-concat :
    (token : String) (ts : List TerminalInfo) (t : TerminalInfo)
    → has_token token ts ≡ false
    → t.token_value ≢ token
    → has_token token (ts ++ t ∷ []) ≡ false
has_token-concat token [] t h n = ground (arith, eq_iff t.token_value token)
has_token-concat token (u ∷ ts) t h n =
    ground (arith, has_token-concat token ts t, eq_iff t.token_value token)

HasDistinctTokens-concat :
    (ts : List TerminalInfo) (t : TerminalInfo)
    → HasDistinctTokens ts
    → (t.token_value ≢ "" → has_token t.token_value ts ≡ false)
    → HasDistinctTokens (ts ++ t ∷ [])
HasDistinctTokens-concat [] t d f = (λ _. refl, tt)
HasDistinctTokens-concat (u ∷ ts) t (p, d) f = (
  λ n. has_token-concat u.token_value ts t (p n) (λ e. cc (f (rw e n), e, eq_refl u.token_value)),
  HasDistinctTokens-concat ts t d (λ n. ground (arith, f n)),
)

Ascending-weaken :
    (low high : ℤ) (ts : List TerminalInfo) → low ≤ℤ high → Ascending high ts → Ascending low ts
Ascending-weaken low high [] h a = tt
Ascending-weaken low high (t ∷ ts) h (p, a) = (omega arith, a)

Ascending-drop :
    (low : ℤ) (token : String) (ts : List TerminalInfo)
    → Ascending low ts
    → Ascending low (drop_token token ts)
unfolding drop_token
Ascending-drop low token [] a = tt
Ascending-drop low token (t ∷ ts) (p, a) = elim (Bool-cases (t.token_value == token)) [
  | inl same ↦
      rw same (Ascending-drop low token ts (Ascending-weaken low t.index ts (omega arith) a))
  | inr other ↦ rw other (p, Ascending-drop t.index token ts a)
]

All-drop {ℓ} :
    (P : TerminalInfo → Type ℓ) (token : String) (ts : List TerminalInfo)
    → All P ts
    → All P (drop_token token ts)
unfolding drop_token
All-drop P token [] a = tt
All-drop P token (t ∷ ts) (p, a) = elim (Bool-cases (t.token_value == token)) [
  | inl same ↦ rw same (All-drop P token ts a)
  | inr other ↦ rw other (p, All-drop P token ts a)
]

-- A token is found behind a removal exactly if it is another token that was there before.
pub has_token-drop :
    (token other : String) (ts : List TerminalInfo)
    → has_token other (drop_token token ts) ≡ (if other == token then false else has_token other ts)
unfolding drop_token
has_token-drop token other [] = ground arith
has_token-drop token other (t ∷ ts) = ground (
  arith,
  has_token-drop token other ts,
  eq_iff t.token_value token,
  eq_iff t.token_value other,
  eq_iff other token,
)

not_dropped_in :
    (token other : String) (ts : List TerminalInfo)
    → has_token other ts ≡ false
    → has_token other (drop_token token ts) ≡ false
not_dropped_in token other ts h = rw has_token-drop (ground (arith, h))

HasDistinctTokens-drop :
    (token : String) (ts : List TerminalInfo)
    → HasDistinctTokens ts
    → HasDistinctTokens (drop_token token ts)
unfolding drop_token
HasDistinctTokens-drop token [] d = tt
HasDistinctTokens-drop token (t ∷ ts) (p, d) = elim (Bool-cases (t.token_value == token)) [
  | inl same ↦ rw same (HasDistinctTokens-drop token ts d)
  | inr other ↦
      rw other (λ n. not_dropped_in token t.token_value ts (p n), HasDistinctTokens-drop token ts d)
]

-- the next history count, where it does not overflow
next_count : (c : ℤ) → pos 0 ≤ℤ c → c <ℤ pos (2 ^ 63 - 1) → wrap64 (c +ℤ pos 1) ≡ c +ℤ pos 1
unfolding ◌+ℤ◌
next_count c lo hi = wrap64_in_range _ (ground arith) (ground arith)

remove_terminal-IsNumbered :
    (s : Session) (token : String) → IsNumbered s → IsNumbered (remove_terminal s token)
unfolding remove_terminal
remove_terminal-IsNumbered s token h = record {
  ascending = Ascending-drop (pos 0) token s.terminal_list h.ascending;
  counted = All-drop (λ t. t.index ≤ℤ s.history_terminal_count) token s.terminal_list h.counted;
  nonneg = h.nonneg;
  distinct = HasDistinctTokens-drop token s.terminal_list h.distinct;
}

count_grows : (c : ℤ) → c <ℤ (c +ℤ pos 1)
unfolding ◌+ℤ◌
count_grows c = ground arith

add_terminal-IsNumbered :
    (s : Session) (info : TerminalInfo)
    → s.history_terminal_count <ℤ pos (2 ^ 63 - 1)
    → IsNumbered s
    → IsNumbered (add_terminal s info)
unfolding add_terminal
add_terminal-IsNumbered s info fits h =
    let count = s.history_terminal_count in
    let step = next_count count h.nonneg fits in
    let grows = count_grows count in
    elim (Bool-cases (has_token info.token_value s.terminal_list && not (info.token_value == ""))) [
      | inl known ↦ rw known h
      | inr fresh ↦
          rw (fresh, step)
            (record {
              ascending =
                  Ascending-concat (pos 0) count s.terminal_list _ h.ascending h.counted h.nonneg
                    grows;
              counted =
                  All-append (λ t. t.index ≤ℤ (count +ℤ pos 1)) s.terminal_list _
                    (All-weaken count (count +ℤ pos 1) s.terminal_list (omega arith) h.counted)
                    (omega arith, tt);
              nonneg = omega arith;
              distinct =
                  HasDistinctTokens-concat s.terminal_list _ h.distinct
                    (λ n. ground (arith, eq_iff info.token_value ""));
            })
    ]

count_after_add :
    (s : Session) (info : TerminalInfo)
    → pos 0 ≤ℤ s.history_terminal_count
    → s.history_terminal_count <ℤ pos (2 ^ 63 - 1)
    → pos_part (add_terminal s info).history_terminal_count ≤ pos_part s.history_terminal_count + 1
unfolding add_terminal ◌+ℤ◌
count_after_add s info lo hi = ground (arith, next_count s.history_terminal_count lo hi)

-- What a session sees of logins and logouts.
pub data Edit : Type 0 where
  add : TerminalInfo → Edit
  drop : String → Edit

pub run_edits : Session → List Edit → Session
run_edits s [] = s
run_edits s (add info ∷ es) = run_edits (add_terminal s info) es
run_edits s (drop token ∷ es) = run_edits (remove_terminal s token) es

-- From a numbered session, however terminals are added and removed, as long as the history count
-- does not overflow: terminal indices grow along the list, none passes the history count, and no
-- two terminals share a non-empty token.
pub run_edits-IsNumbered :
    (s : Session) (es : List Edit)
    → pos_part s.history_terminal_count + length es < 2 ^ 63
    → IsNumbered s
    → IsNumbered (run_edits s es)
unfolding run_edits
run_edits-IsNumbered s [] fits h = h
run_edits-IsNumbered s (add info ∷ es) fits h =
    let room : s.history_terminal_count <ℤ pos (2 ^ 63 - 1) = omega arith in
    run_edits-IsNumbered (add_terminal s info) es
      (omega (arith, count_after_add s info h.nonneg room)) (add_terminal-IsNumbered s info room h)
run_edits-IsNumbered s (drop token ∷ es) fits h =
    run_edits-IsNumbered (remove_terminal s token) es (unfold remove_terminal in omega arith)
      (remove_terminal-IsNumbered s token h)
