-- ===== src/Mongox/Settled.antt =====
-- mongox/mongox.go: a round of the replayer settles every event of its batch.
use acat_go_common.Common.{◌≡◌, refl, ap, ◌∙◌, ℕ, ◌+◌, none, List, [], ◌∷◌, map, arith}
use acat_go_common.Common.Int.{pos}
use acat_go_common.Apperr.{GoError, text}
use acat_go_common.Exec.{Return, Exec, ok, err, try}
use acat_go_common.Mongox.{Event, EventStore, truncate, handle, replay, sweep}
use acat_go_common.Mongox.Table.{
  IsOutbox, pending, first, with_id, as_synced, as_failed, mark, settle, one, count_ok,
}

module _ {S : Type 0} (store : EventStore S) (apply : Event → Exec S (Unit {0}))
    {rows : S → List Event} (h : IsOutbox store apply rows) where
  -- an event that is applied, and one that is not
  handle_applied :
      (e : Event) (s : S)
      → (apply e s).0 ≡ ok tt
      → ((handle store apply e s).0 ≡ ok 1)
        × (rows (handle store apply e s).1 ≡ map (with_id e.id as_synced) (rows s))
  unfolding handle try
  handle_applied e s q =
      let s1 = (apply e s).1 in
      let there = h.synced_rows e.id s1 ∙ ap (map (with_id e.id as_synced)) (h.apply_keeps e s) in
      (rw (q, h.synced_answer e.id s1), rw (q, h.synced_answer e.id s1) there)

  handle_failed :
      (e : Event) (s : S) (why : GoError)
      → (apply e s).0 ≡ err why
      → ((handle store apply e s).0 ≡ ok 0)
        × (rows (handle store apply e s).1
            ≡ map (with_id e.id (as_failed (truncate (text why) 1000))) (rows s))
  unfolding handle try
  handle_failed e s why q =
      let m = truncate (text why) 1000 in
      let s1 = (apply e s).1 in
      let there =
        h.failed_rows e.id m s1 ∙ ap (map (with_id e.id (as_failed m))) (h.apply_keeps e s) in
      (rw (q, h.failed_answer e.id m s1), rw (q, h.failed_answer e.id m s1) there)

  pub handle_by :
      (e : Event) (s : S) (o : Return (Unit {0}))
      → (apply e s).0 ≡ o
      → ((handle store apply e s).0 ≡ ok (one o))
        × (rows (handle store apply e s).1 ≡ map (with_id e.id (mark o)) (rows s))
  handle_by e s (ok tt) q = handle_applied e s q
  handle_by e s (err why) q = handle_failed e s why q

module _ {S : Type 0} (store : EventStore S) (apply : Event → Exec S (Unit {0}))
    {rows : S → List Event} (h : IsOutbox store apply rows) (outcome : Event → Return (Unit {0}))
    (applies : (e : Event) (s : S) → (apply e s).0 ≡ outcome e) where
  replay_settles :
      (events : List Event) (synced : ℕ) (s : S)
      → ((replay store apply events synced s).0 ≡ (synced + count_ok outcome events, none))
        × (rows (replay store apply events synced s).1 ≡ settle outcome events (rows s))
  unfolding replay settle
  replay_settles [] synced s = (ap (λ n. (n, none)) (omega arith), refl)
  replay_settles (e ∷ es) synced s =
      let (q, r) = handle_by store apply h e s (outcome e) (applies e s) in
      let s1 = (handle store apply e s).1 in
      let (m, t) = replay_settles es (synced + one (outcome e)) s1 in
      (
        rw (replay, q) (m ∙ ap (λ n. (n, none)) (omega arith)),
        rw (replay, q) (t ∙ ap (settle outcome es) r),
      )

  -- While the store answers, a round takes the first pending rows, as many as fit the batch, marks
  -- each by what became of it, and returns how many were applied, with no error: one that fails does
  -- not keep the others from being tried.
  pub sweep_settles :
      (batch : ℕ) (s : S)
      → ((sweep store apply (pos batch) s).0
          ≡ (count_ok outcome (first batch (pending (rows s))), none))
        × (rows (sweep store apply (pos batch) s).1
            ≡ settle outcome (first batch (pending (rows s))) (rows s))
  unfolding sweep
  sweep_settles batch s =
      let batch_rows = first batch (pending (rows s)) in
      let s1 = (store.select_pending_outbox (pos batch) s).1 in
      let (m, t) = replay_settles batch_rows 0 s1 in
      let answer = h.select_answer batch s in
      (
        rw (sweep, answer) (m ∙ ap (λ n. (n, none)) (omega arith)),
        rw (sweep, answer) (t ∙ ap (settle outcome batch_rows) (h.select_keeps batch s)),
      )
