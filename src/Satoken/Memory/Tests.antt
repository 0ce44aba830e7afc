-- ===== src/Satoken/Memory/Tests.antt =====
-- The memory store at concrete inputs.
use acat_go_common.Common.{
  ◌≡◌, refl, ap, ◌*◌, ◌/◌, ℕ, none, some, true, false, [], ◌∷◌, ◌==◌, if◌then◌else◌, arith,
}
use mathlib.Core.Bool.{false≢true}
use acat_go_common.Common.Int.{ℤ, pos, negsuc, ◌+ℤ◌, ltb_ℤ}
use acat_go_common.Common.Assoc.{lookup}
use acat_go_common.Apperr.{sentinel, not_found}
use acat_go_common.Exec.{ok, err}
use acat_go_common.Satoken.Keys.{not_value_expire}
use acat_go_common.Satoken.Store.Healthy.{IsHealthy}
use acat_go_common.Satoken.Memory.{
  MemoryEntry, MemoryStore, new_memory_store, is_stale, get, set, expire, set_expire, memory_at,
}
use acat_go_common.Satoken.Memory.Refinement.{view, Fits, memory-IsHealthy}
use acat_go_common.Satoken.Memory.Timing.{
  get_later, get-set_timed, get-set_overflow, set_expire_revives, expire_at_boundary,
  expire_in_last_second,
}
use acat_go_common.Satoken.Memory.Races.{
  Shared, begin_get, end_get, write, run, written_value_survives, write_within_get_lost,
}

abbrev entry_until : ℕ → MemoryEntry
entry_until t = record { value = "v"; expires_at = pos t; forever = false }

abbrev store_until : ℕ → MemoryStore
store_until t = ("k", entry_until t) ∷ []

-- whole seconds, exactly
abbrev floor_seconds : ℤ → ℤ
floor_seconds (pos n) = pos (n / 1_000_000_000)
floor_seconds (negsuc n) = pos 0

held_until : (t : ℕ) → lookup "k" (store_until t) ≡ some (entry_until t)
unfolding lookup
held_until t = refl

stale_at_100 : is_stale (pos 100) (entry_until 50) ≡ true
unfolding is_stale
stale_at_100 = refl

memory-IsHealthy_example : IsHealthy (memory_at floor_seconds none (pos 5)) (view (pos 5)) Fits
memory-IsHealthy_example = memory-IsHealthy floor_seconds (pos 5)

get-set_timed_example : get_later (pos 5) (pos 2_000_000_005) "k" "v" (pos 2) new_memory_store ≡ (
    if ltb_ℤ (pos 5 +ℤ pos (2 * 1_000_000_000)) (pos 2_000_000_005)
    then err (sentinel not_found)
    else ok "v")
get-set_timed_example =
    get-set_timed (pos 5) (pos 2_000_000_005) "k" "v" new_memory_store 2 (omega arith) (omega arith)

get-set_overflow_test :
    ((set none (pos 5) "k" "v" (pos 9_999_999_999) new_memory_store).0 ≡ ok tt)
    × (get_later (pos 5) (pos 5) "k" "v" (pos 9_999_999_999) new_memory_store
        ≡ err (sentinel not_found))
get-set_overflow_test =
    get-set_overflow (pos 5) "k" "v" 9_999_999_999 new_memory_store (omega arith) (omega arith)

set_expire_revives_test :
    ((get none (pos 100) "k" (store_until 50)).0 ≡ err (sentinel not_found))
    × ((get none (pos 100) "k" (set_expire none (pos 100) "k" (pos 10) (store_until 50)).1).0
        ≡ ok "v")
set_expire_revives_test =
    set_expire_revives (pos 100) "k" (entry_until 50) 10 (store_until 50) (held_until 50)
      stale_at_100 (omega arith) (omega arith)

expire_at_boundary_test :
    ((get none (pos 50) "k" (store_until 50)).0 ≡ ok "v")
    × ((expire floor_seconds none (pos 50) "k" (store_until 50)).0 ≡ ok not_value_expire)
    × (view (pos 50) (expire floor_seconds none (pos 50) "k" (store_until 50)).1 "k" ≡ none)
expire_at_boundary_test =
    expire_at_boundary floor_seconds (pos 50) "k" "v" (store_until 50) (held_until 50)

held_ahead :
    lookup "k" (store_until 57)
    ≡ some (record { value = "v"; expires_at = pos 50 +ℤ pos 7; forever = false })
unfolding lookup ◌+ℤ◌
held_ahead = refl

expire_in_last_second_test :
    ((get none (pos 50) "k" (store_until 57)).0 ≡ ok "v")
    × ((expire floor_seconds none (pos 50) "k" (store_until 57)).0 ≡ ok (pos 0))
expire_in_last_second_test =
    expire_in_last_second floor_seconds (pos 50) "k" "v" (store_until 57) 7 (λ x h. refl)
      (omega arith) (omega arith) held_ahead

abbrev shared : ℕ → Shared
shared t = record { held = store_until t; pending = [] }

seen_at_5 : view (pos 5) (store_until 50) "k" ≡ some "v"
unfolding view lookup is_stale
seen_at_5 = refl

written_value_survives_example :
    view
      (pos 5)
      (run (pos 5) (shared 50) (begin_get "k" ∷ write "j" "w" (pos 9) ∷ end_get "k" ∷ [])).held
      "k"
    ≡ some "v"
written_value_survives_example =
    written_value_survives (pos 5) "k" "v" (shared 50)
      (begin_get "k" ∷ write "j" "w" (pos 9) ∷ end_get "k" ∷ []) seen_at_5 refl
      (tt, ((λ e. false≢true (ap (λ t. t == "k") e)), (tt, tt)))

write_within_get_lost_example :
    (view
        (pos 100)
        (run (pos 100) (shared 50) (begin_get "k" ∷ write "k" "w" (pos 9) ∷ end_get "k" ∷ [])).held
        "k"
      ≡ none)
    × (view
          (pos 100)
          (run
            (pos 100)
            (shared 50)
            (begin_get "k" ∷ end_get "k" ∷ write "k" "w" (pos 9) ∷ [])).held
          "k"
        ≡ some "w")
unfolding lookup is_stale
write_within_get_lost_example =
    write_within_get_lost (pos 100) "k" "w" (pos 9) (shared 50) refl (refl, omega arith)
