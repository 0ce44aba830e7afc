-- ===== src/Mongox/Table.antt =====
-- mongox/mongox.go: what the comments of `EventStore` promise, over the rows of the table, and one
-- pass of the replayer over them.
use acat_go_common.Common.{
  ◌≡◌, ℕ, zero, suc, ◌+◌, String, Bool, ◌&&◌, List, [], ◌∷◌, map, ltb, nat_eq, ◌==◌, if◌then◌else◌,
}
use acat_go_common.Common.Int.{pos}
use acat_go_common.Apperr.{text}
use acat_go_common.Exec.{Return, Exec, ok, err}
use acat_go_common.Mongox.{Event, EventStore, max_attempts, truncate}

-- `status=0 AND attempts<max`
abbrev pub is_pending : Event → Bool
is_pending e = nat_eq e.status 0 && ltb e.attempts max_attempts

abbrev pub pending : List Event → List Event
pending [] = []
pending (e ∷ es) = let rest = pending es in if is_pending e then e ∷ rest else rest

abbrev pub first : ℕ → List Event → List Event
first zero es = []
first (suc n) [] = []
first (suc n) (e ∷ es) = e ∷ first n es

-- a row that the mark of an event changes
abbrev pub with_id : String → (Event → Event) → Event → Event
with_id id change row = if row.id == id then change row else row

-- `status=1, attempts+1`
abbrev pub as_synced : Event → Event
as_synced row = record row { status = 1; attempts = suc row.attempts }

-- `attempts+1, last_error=msg`
abbrev pub as_failed : String → Event → Event
as_failed message row = record row { attempts = suc row.attempts; last_error = message }

-- What the store promises while it answers; the rows are in the order of their creation. Applying an
-- event does not touch the table.
pub record IsOutbox {S : Type 0} (store : EventStore S) (apply : Event → Exec S (Unit {0}))
    (rows : S → List Event) : Type 0 where
  pub select_answer :
      (n : ℕ) (s : S) → (store.select_pending_outbox (pos n) s).0 ≡ ok (first n (pending (rows s)))
  pub select_keeps : (n : ℕ) (s : S) → rows (store.select_pending_outbox (pos n) s).1 ≡ rows s
  pub synced_answer : (id : String) (s : S) → (store.mark_outbox_synced id s).0 ≡ ok tt
  pub synced_rows :
      (id : String) (s : S)
      → rows (store.mark_outbox_synced id s).1 ≡ map (with_id id as_synced) (rows s)
  pub failed_answer : (id m : String) (s : S) → (store.mark_outbox_failed id m s).0 ≡ ok tt
  pub failed_rows :
      (id m : String) (s : S)
      → rows (store.mark_outbox_failed id m s).1 ≡ map (with_id id (as_failed m)) (rows s)
  pub apply_keeps : (e : Event) (s : S) → rows (apply e s).1 ≡ rows s

-- the mark that an outcome of `Apply` leads to
abbrev pub mark : Return (Unit {0}) → Event → Event
mark (ok _) row = as_synced row
mark (err e) row = as_failed (truncate (text e) 1000) row

-- One pass over a batch, where each event has an outcome.
unfoldable pub settle : (Event → Return (Unit {0})) → List Event → List Event → List Event
settle outcome [] rows = rows
settle outcome (e ∷ es) rows = settle outcome es (map (with_id e.id (mark (outcome e))) rows)

abbrev pub one : Return (Unit {0}) → ℕ
one (ok _) = 1
one (err _) = 0

-- the events that are applied
abbrev pub count_ok : (Event → Return (Unit {0})) → List Event → ℕ
count_ok outcome [] = 0
count_ok outcome (e ∷ es) = one (outcome e) + count_ok outcome es
