-- ===== src/Satoken/Memory/Timing.antt =====
-- `MemoryStore` of satoken/store.go over time: its methods at several moments.
use acat_go_common.Common.{
  ◌≡◌, refl, ap, ◌∙◌, ◌-◌, ℕ, ◌≤◌, ◌<◌, ◌*◌, ◌/◌, ◌^◌, String, none, some, true, false, arith,
  if◌then◌else◌,
}
use acat_go_common.Common.Int.{ℤ, pos, negsuc, ◌+ℤ◌, ltb_ℤ, wrap64, pos-times}
use acat_go_common.Common.Assoc.{lookup, insert, remove, lookup-remove_self, lookup-insert_self}
use acat_go_common.Apperr.{sentinel, not_found}
use acat_go_common.Exec.{Return, ok, err}
use acat_go_common.Satoken.Keys.{never_expire, not_value_expire}
use acat_go_common.Satoken.Store.{writes_nothing}
use acat_go_common.Satoken.Store.Healthy.{found}
use acat_go_common.Satoken.Memory.{
  MemoryEntry, MemoryStore, seconds, time_sub, is_stale, get, new_entry, set, expire_entry, expire,
  renewed, set_expire,
}
use acat_go_common.Satoken.Memory.Refinement.{live, view, seconds_exact, get_entry_answer}

-- what a `Get` of the key answers later, with no operation between
abbrev pub get_later : ℤ → ℤ → String → String → ℤ → MemoryStore → Return String
get_later now later key v t m = (get none later key (set none now key v t m).1).0

get_of_held :
    (now : ℤ) (key : String) (e : MemoryEntry) (m : MemoryStore)
    → lookup key m ≡ some e
    → (get none now key m).0 ≡ found (live now (some e))
unfolding get
get_of_held now key e m held = rw held (get_entry_answer now key (some e) m)

get_after_insert :
    (later : ℤ) (key : String) (e : MemoryEntry) (m : MemoryStore)
    → (get none later key (insert key e m)).0 ≡ found (live later (some e))
get_after_insert later key e m =
    get_of_held later key e (insert key e m) (lookup-insert_self key e m)

set_stores :
    (now : ℤ) (key v : String) (t : ℤ) (m : MemoryStore)
    → writes_nothing t ≡ false
    → set none now key v t m ≡ (ok tt, insert key (new_entry now v t) m)
unfolding set
set_stores now key v t m h = rw h

get_later_stores :
    (now later : ℤ) (key v : String) (t : ℤ) (m : MemoryStore)
    → writes_nothing t ≡ false
    → get_later now later key v t m ≡ found (live later (some (new_entry now v t)))
get_later_stores now later key v t m h =
    rw (set_stores now key v t m h, get_later) (get_after_insert later key (new_entry now v t) m)

set_expire_of_held :
    (now : ℤ) (key : String) (t : ℤ) (e : MemoryEntry) (m : MemoryStore)
    → lookup key m ≡ some e
    → set_expire none now key t m ≡ (ok tt, insert key (renewed now t e) m)
unfolding set_expire
set_expire_of_held now key t e m held = rw held

expire_of_held :
    (whole : ℤ → ℤ) (now : ℤ) (key : String) (e : MemoryEntry) (m : MemoryStore)
    → lookup key m ≡ some e
    → expire whole none now key m ≡ expire_entry whole now key (some e) m
unfolding expire
expire_of_held whole now key e m held = rw held

stored_timeout : (n : ℕ) → 0 < n → writes_nothing (pos n) ≡ false
stored_timeout n h = ground arith

-- one wrap of the nanoseconds
seconds_overflow :
    (n : ℕ)
    → 9_223_372_036 < n
    → n ≤ 18_446_744_073
    → seconds (pos n) ≡ negsuc (2 ^ 64 - n * 1_000_000_000 - 1)
unfolding seconds wrap64
seconds_overflow n lo hi = rw pos-times (ground arith)

module _ (now later : ℤ) (key v : String) (m : MemoryStore) where
  -- A value that is set for a positive number of seconds, whose nanoseconds fit in an int64, is
  -- returned up to and at the very nanosecond of its expiry, and is not found afterwards.
  pub get-set_timed :
      (n : ℕ)
      → 0 < n
      → n ≤ 9_223_372_036
      → get_later now later key v (pos n) m
        ≡ (if ltb_ℤ (now +ℤ pos (n * 1_000_000_000)) later then err (sentinel not_found) else ok v)
  get-set_timed n lo hi =
      get_later_stores now later key v (pos n) m (stored_timeout n lo)
      ∙ unfold is_stale new_entry in rw (seconds_exact n hi) (ground arith)

  -- A value that is set with the timeout -1 never expires.
  get-set_forever : get_later now later key v never_expire m ≡ ok v
  get-set_forever =
      get_later_stores now later key v never_expire m refl ∙ unfold is_stale new_entry in refl

already_past :
    (now : ℤ) (v : String) (n : ℕ)
    → n ≤ 18_446_744_073
    → live now (
        some (record {
          value = v;
          expires_at = now +ℤ negsuc (2 ^ 64 - n * 1_000_000_000 - 1);
          forever = false;
        }))
      ≡ none
unfolding is_stale ◌+ℤ◌
already_past now v n hi = ground arith

-- A timeout whose nanoseconds overflow an int64 once, from 9223372037 to 18446744073 seconds,
-- stores a value that is expired already at the moment of writing.
pub get-set_overflow :
    (now : ℤ) (key v : String) (n : ℕ) (m : MemoryStore)
    → 9_223_372_036 < n
    → n ≤ 18_446_744_073
    → (set none now key v (pos n) m).0 ≡ ok tt
      × (get_later now now key v (pos n) m ≡ err (sentinel not_found))
get-set_overflow now key v n m lo hi =
    let stores = set_stores now key v (pos n) m (stored_timeout n (omega arith)) in
    (
      ap (λ r. r.0) stores,
      get_later_stores now now key v (pos n) m (stored_timeout n (omega arith))
          ∙ unfold new_entry in rw (seconds_overflow n lo hi) (ap found (already_past now v n hi)),
    )

live-renewed :
    (now : ℤ) (n : ℕ) (e : MemoryEntry)
    → 0 < n
    → n ≤ 9_223_372_036
    → live now (some (renewed now (pos n) e)) ≡ some e.value
unfolding renewed is_stale
live-renewed now n e lo hi = rw seconds_exact (unfold ◌+ℤ◌ in ground arith)

-- An expired value that is still in the map is brought back by `SetExpire` with a positive timeout:
-- `Get` does not find it before and finds it afterwards.
pub set_expire_revives :
    (now : ℤ) (key : String) (e : MemoryEntry) (n : ℕ) (m : MemoryStore)
    → lookup key m ≡ some e
    → is_stale now e ≡ true
    → 0 < n
    → n ≤ 9_223_372_036
    → ((get none now key m).0 ≡ err (sentinel not_found))
      × ((get none now key (set_expire none now key (pos n) m).1).0 ≡ ok e.value)
set_expire_revives now key e n m held stale lo hi = (
  get_of_held now key e m held ∙ rw stale,
  rw (set_expire_of_held now key (pos n) e m held)
      (get_after_insert now key (renewed now (pos n) e) m ∙ ap found (live-renewed now n e lo hi)),
)

expire_entry_past :
    (whole : ℤ → ℤ) (now : ℤ) (key v : String) (m : MemoryStore)
    → expire_entry whole now key (some (record { value = v; expires_at = now; forever = false })) m
      ≡ (ok not_value_expire, remove key m)
unfolding expire_entry time_sub
expire_entry_past whole now key v m = ground arith

time_sub_ahead : (now : ℤ) (d : ℕ) → d < 2 ^ 62 → time_sub (now +ℤ pos d) now ≡ pos d
unfolding time_sub ◌+ℤ◌
time_sub_ahead now d h = ground arith

expire_entry_ahead :
    (whole : ℤ → ℤ) (now : ℤ) (key v : String) (m : MemoryStore) (d : ℕ)
    → 0 < d
    → d < 2 ^ 62
    → expire_entry whole now key
        (some (record { value = v; expires_at = now +ℤ pos d; forever = false }))
        m
      ≡ (ok (whole (pos d)), m)
unfolding expire_entry
expire_entry_ahead whole now key v m d lo hi = rw (time_sub_ahead now d hi) (ground arith)

-- At the very moment of expiry `Get` returns the value, and `Expire` says that there is none and
-- removes it.
pub expire_at_boundary :
    (whole : ℤ → ℤ) (now : ℤ) (key v : String) (m : MemoryStore)
    → lookup key m ≡ some (record { value = v; expires_at = now; forever = false })
    → ((get none now key m).0 ≡ ok v)
      × ((expire whole none now key m).0 ≡ ok not_value_expire)
      × (view now (expire whole none now key m).1 key ≡ none)
expire_at_boundary whole now key v m held = (
  get_of_held now key _ m held ∙ unfold is_stale in ground arith,
  rw (expire_of_held whole now key _ m held) (ap (λ r. r.0) (expire_entry_past whole now key v m)),
  rw (expire_of_held whole now key _ m held)
      (rw (expire_entry_past whole now key v m) (unfold view in rw lookup-remove_self)),
)

-- In its last second `Get` returns the value, and `Expire` answers 0, which is neither a positive
-- remaining time nor one of the two special values.
pub expire_in_last_second :
    (whole : ℤ → ℤ) (now : ℤ) (key v : String) (m : MemoryStore) (d : ℕ)
    → ((x : ℕ) → x < 2 ^ 52 → whole (pos x) ≡ pos (x / 1_000_000_000))
    → 0 < d
    → d < 1_000_000_000
    → lookup key m ≡ some (record { value = v; expires_at = now +ℤ pos d; forever = false })
    → ((get none now key m).0 ≡ ok v) × ((expire whole none now key m).0 ≡ ok (pos 0))
expire_in_last_second whole now key v m d floor lo hi held = (
  get_of_held now key _ m held ∙ unfold is_stale ◌+ℤ◌ in ground arith,
  rw
      (
        expire_of_held whole now key _ m held,
        expire_entry_ahead whole now key v m d lo (omega arith),
      )
      (ap ok (floor d (omega arith) ∙ ap pos (omega arith))),
)
