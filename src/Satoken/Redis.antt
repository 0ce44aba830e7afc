-- ===== src/Satoken/Redis.antt =====
-- satoken/store_redis.go: `RedisStore`. go-redis is outside: `Client` is what the code calls of it.
-- The timeout that every command gets is part of the client's answers.
pub mod Serving
pub mod Scan
mod Tests
use acat_go_common.Common.{String, Option, none, some, if◌then◌else◌}
use acat_go_common.Common.Int.{ℤ, pos, negsuc, leb_ℤ, eqb_ℤ}
use acat_go_common.Apperr.{GoError, sentinel, not_found, wrapped}
use acat_go_common.Exec.{Exec, pure, raise, try, ◌>>=◌}
use acat_go_common.Satoken.Keys.{never_expire, not_value_expire}
use acat_go_common.Satoken.Store.{Store, writes_nothing}
use acat_go_common.Satoken.Memory.{seconds}
use Prim.Native.String.{◌++◌}

-- `GET` answers `none` for `redis.Nil`. Durations are in nanoseconds; `TTL` answers -1 for a key
-- without an expiry and -2 for a key that is not there.
pub record Client (S : Type 0) : Type 0 where
  pub get : String → Exec S (Option String)
  pub set : String → String → ℤ → Exec S (Unit {0})
  pub del : String → Exec S (Unit {0})
  pub ttl : String → Exec S ℤ
  pub expire : String → ℤ → Exec S (Unit {0})

-- `fmt.Errorf("satoken: redis … 失败: %w", …)`
abbrev pub redis_failed : String → String → GoError → GoError
redis_failed command key e =
    wrapped ("satoken: redis " ++ (command ++ (" " ++ (key ++ " 失败: ")))) e ""

-- the answer of `TTL`, in seconds
abbrev pub seconds_left : (ℤ → ℤ) → ℤ → ℤ
seconds_left whole duration =
    if eqb_ℤ duration (negsuc 1)
    then not_value_expire
    else if eqb_ℤ duration (negsuc 0)
    then never_expire
    else if leb_ℤ duration (pos 0)
    then not_value_expire
    else whole duration

abbrev pub found_or : {S : Type 0} → Option String → Exec S String
found_or none = raise (sentinel not_found)
found_or (some value) = pure value

module _ {S : Type 0} (client : Client S) where
  unfoldable pub redis_get : String → Exec S String
  unfolding try
  redis_get key = try (client.get key) found_or (λ e. raise (redis_failed "get" key e))

  unfoldable pub redis_set : String → String → ℤ → Exec S (Unit {0})
  unfolding try seconds
  redis_set key value timeout =
      if writes_nothing timeout
      then pure tt
      else try
          (client.set key value (if eqb_ℤ timeout never_expire then pos 0 else seconds timeout))
          pure (λ e. raise (redis_failed "set" key e))

  unfoldable pub redis_delete : String → Exec S (Unit {0})
  unfolding try
  redis_delete key = try (client.del key) pure (λ e. raise (redis_failed "del" key e))

  -- `whole` is `int64(d.Seconds())` of a positive duration.
  unfoldable pub redis_expire : (ℤ → ℤ) → String → Exec S ℤ
  unfolding try
  redis_expire whole key =
      try (client.ttl key) (λ duration. pure (seconds_left whole duration))
        (λ e. raise (redis_failed "ttl" key e))

  unfoldable pub redis_set_expire : String → ℤ → Exec S (Unit {0})
  unfolding try redis_get redis_set seconds ◌>>=◌
  redis_set_expire key timeout =
      if eqb_ℤ timeout never_expire
      then (do value ← redis_get key; redis_set key value never_expire)
      else if leb_ℤ timeout (pos 0)
      then pure tt
      else try (client.expire key (seconds timeout)) pure (λ e. raise (redis_failed "expire" key e))

-- `RedisStore` as a `Store`
abbrev pub redis_store : {S : Type 0} → (ℤ → ℤ) → Client S → Store S
redis_store whole client = record {
  get = redis_get client;
  set = redis_set client;
  delete = redis_delete client;
  expire = redis_expire client whole;
  set_expire = redis_set_expire client;
}
