-- ===== src/Satoken/Store/Healthy.antt =====
-- The contract of satoken/store.go for a store that answers, as clients of `Store` use it: a map
-- from keys to the values that have not expired.
use acat_go_common.Common.{◌≡◌, ◌≢◌, String, Option, none, some, ◌==◌, if◌then◌else◌}
use acat_go_common.Common.Int.{ℤ}
use acat_go_common.Apperr.{sentinel, not_found}
use acat_go_common.Exec.{Return, ok, err}
use acat_go_common.Satoken.Store.{Store}

-- what `Get` answers for a value of the map
abbrev pub found : Option String → Return String
found none = err (sentinel not_found)
found (some v) = ok v

-- `fits` are the timeouts for which a value is written as asked.
pub record IsHealthy {S : Type 0} (store : Store S) (view : S → String → Option String)
    (Fits : ℤ → Type 0) : Type 0 where
  pub get_answer : (k : String) (s : S) → (store.get k s).0 ≡ found (view s k)
  pub get_keeps : (k j : String) (s : S) → view (store.get k s).1 j ≡ view s j
  pub set_answer : (k v : String) (t : ℤ) (s : S) → (store.set k v t s).0 ≡ ok tt
  pub set_writes :
      (k j v : String) (t : ℤ) (s : S)
      → Fits t
      → view (store.set k v t s).1 j ≡ (if k == j then some v else view s j)
  pub set_keeps_other :
      (k j v : String) (t : ℤ) (s : S) → k ≢ j → view (store.set k v t s).1 j ≡ view s j
  pub delete_answer : (k : String) (s : S) → (store.delete k s).0 ≡ ok tt
  pub delete_drops :
      (k j : String) (s : S) → view (store.delete k s).1 j ≡ (if k == j then none else view s j)
