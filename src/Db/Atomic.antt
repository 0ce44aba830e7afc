-- ===== src/Db/Atomic.antt =====
-- `Within` of db/tx.go: functions that fail in a transaction, and nested calls.
use acat_go_common.Common.{
  ◌≡◌, ◌≢◌, inl, inr, refl, ap, sym, ◌∙◌, Bool, true, false, Option, none, some, Bool-cases,
}
use acat_go_common.Apperr.{GoError, Sentinel, is, tx_done}
use acat_go_common.Exec.{Return, ok, err}
use acat_go_common.Db.{
  Sql, Ended, finished, panicked, Handle, rollback_failed, after_rollback, exec_context, close,
  within,
}

-- What database/sql promises of transactions: until a commit, nothing that runs in a transaction
-- changes the data that others see, and a rollback does not either; a transaction that begins is
-- open, and a rollback ends it, whatever it answers.
pub record IsTransactional {S T Q R D : Type 0} (sql : Sql S T Q R) (durable : S → D)
    (is_open : T → S → Bool) : Type 0 where
  pub begin_keeps : (s : S) → durable (sql.begin_tx s).1 ≡ durable s
  pub begin_opens : (tx : T) (s s' : S) → sql.begin_tx s ≡ (ok tx, s') → is_open tx s' ≡ true
  pub exec_in_keeps : (tx : T) (q : Q) (s : S) → durable (sql.exec_in tx q s).1 ≡ durable s
  pub rollback_keeps : (tx : T) (s : S) → durable (sql.rollback tx s).1 ≡ durable s
  pub rollback_ends : (tx : T) (s : S) → is_open tx (sql.rollback tx s).1 ≡ false

-- A function that works on the database through the handle and its context alone: it ends, or runs
-- a statement, or calls `Within` with such a function, and goes on as the answer tells it.
pub data Script (Q R : Type 0) : Type 0 where
  stop : Ended → Script Q R
  statement : Q → (Return R → Script Q R) → Script Q R
  nested : Script Q R → (Return (Unit {0}) → Script Q R) → Script Q R

module _ {S T Q R : Type 0} (sql : Sql S T Q R) (h : Handle) where
  -- a panic of a nested function goes on upwards
  abbrev go_on : (Return (Unit {0}) → S → Ended × S) → Ended × S → Ended × S
  go_on k (panicked v, s) = (panicked v, s)
  go_on k (finished r, s) = k r s

  abbrev answered : (Return R → S → Ended × S) → Return R × S → Ended × S
  answered k (r, s) = k r s

  unfoldable pub run : Script Q R → Option T → S → Ended × S
  unfolding exec_context within
  run (stop e) ctx s = (e, s)
  run (statement q k) ctx s = answered (λ r. run (k r) ctx) (exec_context sql h ctx q s)
  run (nested inner k) ctx s = go_on (λ r. run (k r) ctx) (within sql h ctx (some (run inner)) s)

go_on_keeps :
    {S T Q R D : Type 0} (sql : Sql S T Q R) (h : Handle) (durable : S → D)
    (k : Return (Unit {0}) → S → Ended × S)
    → ((r : Return (Unit {0})) (s : S) → durable (k r s).1 ≡ durable s)
    → (es : Ended × S) → durable (go_on sql h k es).1 ≡ durable es.1
go_on_keeps sql h durable k keeps (panicked v, s) = refl
go_on_keeps sql h durable k keeps (finished r, s) = keeps r s

within_begun :
    {S T Q R : Type 0} (sql : Sql S T Q R) (h : Handle) (fn : Option T → S → Ended × S) (tx : T)
    (s s' : S)
    → h.has_raw ≡ true
    → sql.begin_tx s ≡ (ok tx, s')
    → within sql h none (some fn) s ≡ close sql tx (fn (some tx) s')
unfolding within
within_begun sql h fn tx s s' there begins = rw (there, begins) refl

after_rollback_state :
    {S : Type 0} (e : GoError) (r : Return (Unit {0}) × S) → (after_rollback e r).1 ≡ r.1
after_rollback_state e (ok u, s) = refl
after_rollback_state e (err re, s) = refl

-- The error that `Within` returns has the cause that the function's error has.
after_rollback_is :
    {S : Type 0} (e : GoError) (r : Return (Unit {0}) × S) (target : Sentinel)
    → is e target ≡ true
    → (e' : GoError) × ((after_rollback e r).0 ≡ finished (err e')) × (is e' target ≡ true)
after_rollback_is e (ok u, s) target h = (e, refl, h)
after_rollback_is e (err re, s) target h = elim (Bool-cases (is re tx_done)) [
  | inl done ↦ (e, rw done refl, h)
  | inr other ↦ (rollback_failed e re, rw other refl, unfold is in rw h refl)
]

module _ {S T Q R D : Type 0} (sql : Sql S T Q R) {durable : S → D} {is_open : T → S → Bool}
    (t : IsTransactional sql durable is_open) (h : Handle) where
  -- Inside a transaction nothing that a function does through the handle becomes durable, nested
  -- calls of `Within` included, however they end: only the outermost `Within` commits.
  pub nothing_durable_inside :
      (script : Script Q R) (tx : T) (s : S) → durable (run sql h script (some tx) s).1 ≡ durable s
  unfolding run exec_context within
  nothing_durable_inside (stop e) tx s = refl
  nothing_durable_inside (statement q k) tx s =
      let (r, s') = sql.exec_in tx q s in
      nothing_durable_inside (k r) tx s' ∙ t.exec_in_keeps tx q s
  nothing_durable_inside (nested inner k) tx s =
      go_on_keeps sql h durable (λ r. run sql h (k r) (some tx))
        (λ r s'. nothing_durable_inside (k r) tx s') (run sql h inner (some tx) s)
      ∙ nothing_durable_inside inner tx s

  close_keeps :
      (tx : T) (e : Ended) (s : S)
      → e ≢ finished (ok tt)
      → durable (close sql tx (e, s)).1 ≡ durable s
  unfolding close
  close_keeps tx (panicked v) s n = t.rollback_keeps tx s
  close_keeps tx (finished (ok u)) s n = absurd (n refl)
  close_keeps tx (finished (err e)) s n =
      ap durable (after_rollback_state e (sql.rollback tx s)) ∙ t.rollback_keeps tx s

  close_ends :
      (tx : T) (e : Ended) (s : S)
      → e ≢ finished (ok tt)
      → is_open tx (close sql tx (e, s)).1 ≡ false
  unfolding close
  close_ends tx (panicked v) s n = t.rollback_ends tx s
  close_ends tx (finished (ok u)) s n = absurd (n refl)
  close_ends tx (finished (err e)) s n =
      ap (is_open tx) (after_rollback_state e (sql.rollback tx s)) ∙ t.rollback_ends tx s

  -- Where a pool is there and a transaction begins, a function that fails or panics in `Within` is
  -- rolled back: whatever statements and nested calls it ran, its transaction is no longer open, and
  -- the durable data is the data from before.
  pub within_rolls_back :
      (script : Script Q R) (tx : T) (s s' : S)
      → h.has_raw ≡ true
      → sql.begin_tx s ≡ (ok tx, s')
      → (run sql h script (some tx) s').0 ≢ finished (ok tt)
      → (is_open tx (within sql h none (some (run sql h script)) s).1 ≡ false)
        × (durable (within sql h none (some (run sql h script)) s).1 ≡ durable s)
  within_rolls_back script tx s s' there begins fails =
      let (ended, s'') = run sql h script (some tx) s' in
      let closed = within_begun sql h (run sql h script) tx s s' there begins in
      (
        ap (λ r. is_open tx r.1) closed ∙ close_ends tx ended s'' fails,
        ap (λ r. durable r.1) closed
            ∙ (close_keeps tx ended s'' fails
                ∙ nothing_durable_inside script tx s'
                ∙ ap (λ r. durable r.1) (sym begins)
                ∙ t.begin_keeps s),
      )

-- The error of a function that fails in `Within` comes out of it, alone or joined with the error of
-- the rollback: what `errors.Is` finds in it stays found.
pub within_keeps_cause :
    {S T Q R : Type 0} (sql : Sql S T Q R) (h : Handle) (fn : Option T → S → Ended × S) (tx : T)
    (s s' s'' : S) (e : GoError) (target : Sentinel)
    → h.has_raw ≡ true
    → sql.begin_tx s ≡ (ok tx, s')
    → fn (some tx) s' ≡ (finished (err e), s'')
    → is e target ≡ true
    → (e' : GoError) × ((within sql h none (some fn) s).0 ≡ finished (err e'))
      × (is e' target ≡ true)
unfolding within
within_keeps_cause sql h fn tx s s' s'' e target there begins fails found =
    rw (there, begins, fails) (after_rollback_is e (sql.rollback tx s'') target found)
