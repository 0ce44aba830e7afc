-- ===== src/Mongox.antt =====
-- mongox/mongox.go: the outbox that carries writes from MySQL to MongoDB, and its replayer. The
-- table and MongoDB are behind interfaces that the services implement.
pub mod Table
pub mod Settled
pub mod Drained
mod Tests
use acat_go_common.Common.{
  ℕ, zero, suc, ◌+◌, ◌-◌, String, Option, none, some, List, [], ◌∷◌, leb, if◌then◌else◌,
}
use acat_go_common.Common.Int.{ℤ, pos, leb_ℤ}
use acat_go_common.Apperr.{GoError, wrapped, text}
use acat_go_common.Exec.{Exec, ok, err, pure, raise, try}
use Prim.Native.Char.{Char, code}
use Prim.Native.String

-- A row of the outbox. `status` is 0 until the event is synced, then 1.
pub record Event : Type 0 where
  pub id : String
  pub aggregate_type : String
  pub aggregate_id : String
  pub event_type : String
  pub payload : String
  pub status : ℕ
  pub attempts : ℕ
  pub last_error : String

abbrev pub max_attempts : ℕ
max_attempts = 10

-- `EventStore`
pub record EventStore (S : Type 0) : Type 0 where
  pub enqueue_outbox : Event → Exec S (Unit {0})
  pub select_pending_outbox : ℤ → Exec S (List Event)
  pub mark_outbox_synced : String → Exec S (Unit {0})
  pub mark_outbox_failed : String → String → Exec S (Unit {0})

-- the bytes of a character in UTF-8
abbrev pub width : Char → ℕ
width c =
    if leb (code c) 0x7f
    then 1
    else if leb (code c) 0x7ff
    then 2
    else if leb (code c) 0xffff
    then 3
    else 4

abbrev pub bytes : String → ℕ
bytes String.[] = 0
bytes (String.◌∷◌ c s) = width c + bytes s

-- the characters that fit whole into a number of bytes
unfoldable pub fitting : ℕ → String → String
fitting max String.[] = String.[]
fitting max (String.◌∷◌ c s) =
    let rest = fitting (max - width c) s in
    if leb (width c) max then String.◌∷◌ c rest else String.[]

-- A text is valid UTF-8: what is left of the first `max` bytes once a part of a character is dropped
-- from their end.
unfoldable pub truncate : String → ℕ → String
unfolding fitting
truncate s max = if leb (bytes s) max then s else fitting max s

-- What `Sweep` returns: the number of events that are synced, and the error beside it.
abbrev pub Swept : Type 0
Swept = ℕ × Option GoError

module _ {S : Type 0} (store : EventStore S) (apply : Event → Exec S (Unit {0})) where
  -- The body of the loop of `Sweep`, without the log: 1 for an event that is synced, 0 for one whose
  -- failure is recorded.
  unfoldable pub handle : Event → Exec S ℕ
  unfolding try truncate text
  handle event =
      try (apply event)
        (λ _.
          try (store.mark_outbox_synced event.id) (λ _. pure 1)
            (λ e. raise (wrapped "mongox: 标记同步成功出错: " e "")))
        (λ e.
          try (store.mark_outbox_failed event.id (truncate (text e) 1000)) (λ _. pure 0)
            (λ e'. raise (wrapped "mongox: 记录失败原因出错: " e' "")))

  unfoldable pub replay : List Event → ℕ → S → Swept × S
  unfolding handle
  replay [] synced s = ((synced, none), s)
  replay (event ∷ events) synced s =
      let (handled, s') = handle event s in
      elim handled [ err e ↦ ((synced, some e), s') | ok n ↦ replay events (synced + n) s' ]

  -- `Sweep` of a replayer with a batch size
  unfoldable pub sweep : ℤ → S → Swept × S
  unfolding replay
  sweep batch s =
      let (selected, s1) = store.select_pending_outbox batch s in
      elim selected [
        | err e ↦ ((0, some (wrapped "mongox: 查询待同步事件失败: " e "")), s1)
        | ok events ↦ replay events 0 s1
      ]

  -- The ticks of `Loop` while its context lives: an error is left to the next round.
  unfoldable pub loop : ℕ → ℤ → S → S
  unfolding sweep
  loop zero batch s = s
  loop (suc ticks) batch s = loop ticks batch (sweep batch s).1

-- `NewReplayer`: which batch size it takes; the store and the applier are there.
unfoldable pub batch_size : ℤ → ℤ
batch_size batch = if leb_ℤ batch (pos 0) then pos 50 else batch
