-- ===== src/Satoken/Memory.antt =====
-- satoken/store.go: `MemoryStore`. The store is its map; the time is in nanoseconds, and each
-- method is given the moment at which it reads the clock and the error of its context.
pub mod Refinement
pub mod Timing
pub mod Races
mod Tests
use acat_go_common.Common.{
  String, Bool, true, false, not, ◌&&◌, Option, none, some, List, [], map, if◌then◌else◌,
}
use acat_go_common.Common.Int.{ℤ, pos, ◌+ℤ◌, ◌-ℤ◌, ◌*ℤ◌, ltb_ℤ, leb_ℤ, eqb_ℤ, wrap64, negsuc}
use acat_go_common.Common.Assoc.{lookup, insert, remove}
use acat_go_common.Apperr.{GoError, sentinel, not_found}
use acat_go_common.Exec.{Exec, ok, err}
use acat_go_common.Satoken.Keys.{never_expire, not_value_expire}
use acat_go_common.Satoken.Store.{Store, writes_nothing}

pub record MemoryEntry : Type 0 where
  pub value : String
  pub expires_at : ℤ
  pub forever : Bool

abbrev pub MemoryStore : Type 0
MemoryStore = List (String × MemoryEntry)

abbrev pub new_memory_store : MemoryStore
new_memory_store = []

-- `time.Duration(timeoutSeconds) * time.Second`, which wraps in an int64
unfoldable pub seconds : ℤ → ℤ
unfolding ◌*ℤ◌ wrap64
seconds t = wrap64 (t *ℤ pos 1_000_000_000)

-- `time.Time.Sub`, which saturates
unfoldable pub time_sub : ℤ → ℤ → ℤ
unfolding ◌-ℤ◌
time_sub a b =
    let d = a -ℤ b in
    if ltb_ℤ (pos 9_223_372_036_854_775_807) d
    then pos 9_223_372_036_854_775_807
    else if ltb_ℤ d (negsuc 9_223_372_036_854_775_807)
    then negsuc 9_223_372_036_854_775_807
    else d

-- `!entry.forever && s.now().After(entry.expiresAt)`
unfoldable pub is_stale : ℤ → MemoryEntry → Bool
is_stale now e = not e.forever && ltb_ℤ e.expires_at now

-- The zero `time.Time`, before every moment that the clock shows: 1 January of year 1.
abbrev zero_time : ℤ
zero_time = negsuc 62_135_596_799_999_999_999

-- Every method first asks `ctx.Err()`.
abbrev checked : {A : Type 0} → Option GoError → Exec MemoryStore A → Exec MemoryStore A
checked none m s = m s
checked (some e) m s = (err e, s)

pub get_entry : ℤ → String → Option MemoryEntry → Exec MemoryStore String
unfolding is_stale remove
get_entry now key none m = (err (sentinel not_found), m)
get_entry now key (some e) m =
    if is_stale now e then (err (sentinel not_found), remove key m) else (ok e.value, m)

unfoldable pub get : Option GoError → ℤ → String → Exec MemoryStore String
unfolding get_entry lookup
get ctx now key = checked ctx (λ m. get_entry now key (lookup key m) m)

pub new_entry : ℤ → String → ℤ → MemoryEntry
unfolding seconds ◌+ℤ◌
new_entry now value timeout =
    if eqb_ℤ timeout never_expire
    then record { value = value; expires_at = zero_time; forever = true }
    else record { value = value; expires_at = now +ℤ seconds timeout; forever = false }

unfoldable pub set : Option GoError → ℤ → String → String → ℤ → Exec MemoryStore (Unit {0})
unfolding new_entry insert
set ctx now key value timeout = checked ctx λ m.
    if writes_nothing timeout
    then (ok tt, m)
    else (ok tt, insert key (new_entry now value timeout) m)

unfoldable pub delete : Option GoError → String → Exec MemoryStore (Unit {0})
unfolding remove
delete ctx key = checked ctx λ m. (ok tt, remove key m)

-- `whole` is `int64(d.Seconds())` of a positive duration `d`: it goes through a float64.
pub expire_entry : (ℤ → ℤ) → ℤ → String → Option MemoryEntry → Exec MemoryStore ℤ
unfolding time_sub remove
expire_entry whole now key none m = (ok not_value_expire, m)
expire_entry whole now key (some e) m =
    let remaining = time_sub e.expires_at now in
    if e.forever
    then (ok never_expire, m)
    else if leb_ℤ remaining (pos 0)
    then (ok not_value_expire, remove key m)
    else (ok (whole remaining), m)

unfoldable pub expire : (ℤ → ℤ) → Option GoError → ℤ → String → Exec MemoryStore ℤ
unfolding expire_entry lookup
expire whole ctx now key = checked ctx (λ m. expire_entry whole now key (lookup key m) m)

-- the entry that `SetExpire` writes back
renewed : ℤ → ℤ → MemoryEntry → MemoryEntry
unfolding seconds ◌+ℤ◌
renewed now timeout e =
    if eqb_ℤ timeout never_expire
    then record e { forever = true; expires_at = zero_time }
    else if ltb_ℤ (pos 0) timeout
    then record e { forever = false; expires_at = now +ℤ seconds timeout }
    else e

set_expire_entry : ℤ → String → ℤ → Option MemoryEntry → Exec MemoryStore (Unit {0})
unfolding renewed insert
set_expire_entry now key timeout none m = (ok tt, m)
set_expire_entry now key timeout (some e) m = (ok tt, insert key (renewed now timeout e) m)

unfoldable pub set_expire : Option GoError → ℤ → String → ℤ → Exec MemoryStore (Unit {0})
unfolding set_expire_entry lookup
set_expire ctx now key timeout =
    checked ctx (λ m. set_expire_entry now key timeout (lookup key m) m)

-- `Keys`, in some order
unfoldable pub keys : MemoryStore → List String
keys m = map (λ e. e.0) m

-- `MemoryStore` as a `Store`, at one moment
abbrev pub memory_at : (ℤ → ℤ) → Option GoError → ℤ → Store MemoryStore
memory_at whole ctx now = record {
  get = get ctx now;
  set = set ctx now;
  delete = delete ctx;
  expire = expire whole ctx now;
  set_expire = set_expire ctx now;
}
