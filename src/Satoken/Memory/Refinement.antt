-- ===== src/Satoken/Memory/Refinement.antt =====
-- `MemoryStore` of satoken/store.go as a map from keys to values that have not expired.
use acat_go_common.Common.{
  ◌≡◌, ◌≢◌, refl, ℕ, ◌≤◌, ◌*◌, String, Option, none, some, false, arith, eq_iff, if◌then◌else◌,
  zero, suc, Bool-cases, Option-cases, inl, inr,
}
use acat_go_common.Common.Int.{ℤ, pos, negsuc, ◌+ℤ◌, ◌≤ℤ◌, ltb_ℤ, pos-times, wrap64_in_range}
use acat_go_common.Common.Assoc.{lookup, lookup-insert, lookup-remove}
use acat_go_common.Satoken.Store.{writes_nothing}
use acat_go_common.Satoken.Store.Healthy.{found, IsHealthy}
use acat_go_common.Satoken.Memory.{
  MemoryEntry, MemoryStore, seconds, is_stale, get_entry, get, new_entry, set, delete, memory_at,
}

abbrev pub live : ℤ → Option MemoryEntry → Option String
live now none = none
live now (some e) = if is_stale now e then none else some e.value

-- the values that a `Get` at the moment finds
unfoldable pub view : ℤ → MemoryStore → String → Option String
unfolding is_stale
view now m key = live now (lookup key m)

-- A timeout that `Set` stores as asked: for ever, or a positive number of seconds whose nanoseconds
-- fit in an int64.
abbrev pub Fits : ℤ → Type 0
Fits t = (writes_nothing t ≡ false) × (t ≤ℤ pos 9_223_372_036)

-- No wrapping: the nanoseconds of `n` seconds fit.
pub seconds_exact : (n : ℕ) → n ≤ 9_223_372_036 → seconds (pos n) ≡ pos (n * 1_000_000_000)
unfolding seconds
seconds_exact n h =
    rw pos-times (wrap64_in_range (pos (n * 1_000_000_000)) (omega arith) (omega arith))

fresh_entry : (n : ℕ) (now : ℤ) → n ≤ 9_223_372_036 → ltb_ℤ (now +ℤ seconds (pos n)) now ≡ false
fresh_entry n now h = rw (seconds_exact n h) (unfold ◌+ℤ◌ in ground arith)

-- What is written at a moment is live at that moment.
pub live-new_entry :
    (now t : ℤ) (v : String) → Fits t → live now (some (new_entry now v t)) ≡ some v
unfolding new_entry is_stale
live-new_entry now (pos n) v f = rw (fresh_entry n now (omega arith))
live-new_entry now (negsuc zero) v f = refl
live-new_entry now (negsuc (suc n)) v f = ground arith

pub get_entry_answer :
    (now : ℤ) (key : String) (o : Option MemoryEntry) (m : MemoryStore)
    → (get_entry now key o m).0 ≡ found (live now o)
unfolding get_entry is_stale
get_entry_answer now key none m = refl
get_entry_answer now key (some e) m = ground arith

get_entry_keeps :
    (now : ℤ) (key j : String) (m : MemoryStore)
    → view now (get_entry now key (lookup key m) m).1 j ≡ view now m j
unfolding view get_entry
get_entry_keeps now key j m = elim (Option-cases (lookup key m)) [
  | inl missing ↦ rw missing
  | inr (e, held) ↦ elim (Bool-cases (is_stale now e)) [
    | inl stale ↦ rw (held, stale, lookup-remove) (ground (arith, eq_iff key j, held, stale))
    | inr fresh ↦ rw (held, fresh)
  ]
]

pub view-set_other :
    (now : ℤ) (j k v : String) (t : ℤ) (m : MemoryStore)
    → j ≢ k
    → view now (set none now j v t m).1 k ≡ view now m k
unfolding set view
view-set_other now j k v t m n = elim (Bool-cases (writes_nothing t)) [
  | inl nothing ↦ rw nothing
  | inr stores ↦ rw (stores, lookup-insert) (ground (arith, eq_iff j k))
]

module _ (whole : ℤ → ℤ) (now : ℤ) where
  -- At any moment, with a live context, `MemoryStore` behaves as the map of its unexpired values:
  -- `Get` answers from it and leaves it alone, `Set` with a timeout that fits writes the value,
  -- `Delete` removes the key, and no other key is touched.
  pub memory-IsHealthy : IsHealthy (memory_at whole none now) (view now) Fits
  unfolding get set delete
  memory-IsHealthy = record {
    get_answer = λ k m. unfold view in get_entry_answer now k (lookup k m) m;
    get_keeps = λ k j m. get_entry_keeps now k j m;
    set_answer = λ k v t m. ground arith;
    set_writes = λ k j v t m f.
        unfold view in rw (f.0, lookup-insert) (ground (arith, live-new_entry now t v f));
    set_keeps_other = λ k j v t m n. view-set_other now k j v t m n;
    delete_answer = λ k m. refl;
    delete_drops = λ k j m. unfold view in rw lookup-remove (ground arith);
  }
