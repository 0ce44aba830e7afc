-- ===== src/Satoken/Redis/Serving.antt =====
-- `RedisStore` of satoken/store_redis.go over a Redis server that answers.
use acat_go_common.Common.{
  ◌≡◌, ◌≢◌, refl, ap, ◌∙◌, zero, suc, String, true, false, Option, none, some, arith, Bool-cases,
  inl, inr, ◌==◌, if◌then◌else◌,
}
use acat_go_common.Common.Int.{ℤ, pos, negsuc, ◌≤ℤ◌, eqb_ℤ}
use acat_go_common.Apperr.{GoError}
use acat_go_common.Exec.{Exec, ok, err, pure, try}
use acat_go_common.Satoken.Keys.{never_expire}
use acat_go_common.Satoken.Store.{writes_nothing}
use acat_go_common.Satoken.Store.Healthy.{found, IsHealthy}
use acat_go_common.Satoken.Memory.{seconds}
use acat_go_common.Satoken.Memory.Refinement.{Fits, seconds_exact}
use acat_go_common.Satoken.Redis.{Client, found_or, redis_get, redis_set, redis_delete, redis_store}

-- What Redis promises while it answers: the values of the keys that have not expired. A `SET` with
-- the duration 0 sets no expiry, one with a positive duration is there for now.
pub record IsServing {S : Type 0} (client : Client S) (view : S → String → Option String)
    : Type 0 where
  pub get_answer : (k : String) (s : S) → (client.get k s).0 ≡ ok (view s k)
  pub get_keeps : (k j : String) (s : S) → view (client.get k s).1 j ≡ view s j
  pub set_answer : (k v : String) (d : ℤ) (s : S) → (client.set k v d s).0 ≡ ok tt
  pub set_writes :
      (k j v : String) (d : ℤ) (s : S)
      → pos 0 ≤ℤ d
      → view (client.set k v d s).1 j ≡ (if k == j then some v else view s j)
  pub set_keeps_other :
      (k j v : String) (d : ℤ) (s : S) → k ≢ j → view (client.set k v d s).1 j ≡ view s j
  pub del_answer : (k : String) (s : S) → (client.del k s).0 ≡ ok tt
  pub del_drops :
      (k j : String) (s : S) → view (client.del k s).1 j ≡ (if k == j then none else view s j)

try_ok :
    {S A B : Type 0} (m : Exec S A) (f : A → Exec S B) (g : GoError → Exec S B) (s : S) (a : A)
    → (m s).0 ≡ ok a
    → try m f g s ≡ f a (m s).1
unfolding try
try_ok m f g s a h = ap (λ r. try (λ x. (r, (m s).1)) f g s) h

try_err :
    {S A B : Type 0} (m : Exec S A) (f : A → Exec S B) (g : GoError → Exec S B) (s : S)
    (e : GoError)
    → (m s).0 ≡ err e
    → try m f g s ≡ g e (m s).1
unfolding try
try_err m f g s e h = ap (λ r. try (λ x. (r, (m s).1)) f g s) h

found_or_answer : {S : Type 0} (o : Option String) (s : S) → (found_or o s).0 ≡ found o
unfolding try
found_or_answer none s = refl
found_or_answer (some v) s = refl

found_or_state : {S : Type 0} (o : Option String) (s : S) → (found_or o s).1 ≡ s
unfolding try
found_or_state none s = refl
found_or_state (some v) s = refl

pure_answer : {S : Type 0} (s : S) → pure tt s ≡ (ok tt, s)
unfolding try
pure_answer s = refl

duration_nonneg : (t : ℤ) → Fits t → pos 0 ≤ℤ (if eqb_ℤ t never_expire then pos 0 else seconds t)
duration_nonneg (pos n) f = rw (seconds_exact n (omega arith)) (omega arith)
duration_nonneg (negsuc zero) f = omega arith
duration_nonneg (negsuc (suc n)) f = absurd (ground (arith, f))

module _ {S : Type 0} (client : Client S) {view : S → String → Option String}
    (serves : IsServing client view) (whole : ℤ → ℤ) where
  get_is : (k : String) (s : S) → redis_get client k s ≡ found_or (view s k) (client.get k s).1
  unfolding redis_get
  get_is k s = try_ok (client.get k) found_or _ s (view s k) (serves.get_answer k s)

  set_is :
      (k v : String) (t : ℤ) (s : S)
      → writes_nothing t ≡ false
      → redis_set client k v t s
        ≡ (ok tt, (client.set k v (if eqb_ℤ t never_expire then pos 0 else seconds t) s).1)
  unfolding redis_set
  set_is k v t s stores =
      rw stores (try_ok (client.set k v _) pure _ s tt (serves.set_answer k v _ s) ∙ pure_answer _)

  set_nothing :
      (k v : String) (t : ℤ) (s : S)
      → writes_nothing t ≡ true
      → redis_set client k v t s ≡ (ok tt, s)
  unfolding redis_set
  set_nothing k v t s nothing = rw nothing (pure_answer s)

  delete_is : (k : String) (s : S) → redis_delete client k s ≡ (ok tt, (client.del k s).1)
  unfolding redis_delete
  delete_is k s = try_ok (client.del k) pure _ s tt (serves.del_answer k s) ∙ pure_answer _

  set_answers : (k v : String) (t : ℤ) (s : S) → (redis_set client k v t s).0 ≡ ok tt
  set_answers k v t s = elim (Bool-cases (writes_nothing t)) [
    | inl nothing ↦ ap (λ r. r.0) (set_nothing k v t s nothing)
    | inr stores ↦ ap (λ r. r.0) (set_is k v t s stores)
  ]

  set_keeps :
      (k j v : String) (t : ℤ) (s : S) → k ≢ j → view (redis_set client k v t s).1 j ≡ view s j
  set_keeps k j v t s n = elim (Bool-cases (writes_nothing t)) [
    | inl nothing ↦ ap (λ r. view r.1 j) (set_nothing k v t s nothing)
    | inr stores ↦ ap (λ r. view r.1 j) (set_is k v t s stores) ∙ serves.set_keeps_other k j v _ s n
  ]

  -- While the Redis server answers, `RedisStore` behaves as the map of its unexpired values, for the
  -- same timeouts as `MemoryStore`: `Get` answers from the map and leaves it alone, `Set` writes the
  -- value, `Delete` removes the key, and no other key is touched.
  pub redis-IsHealthy : IsHealthy (redis_store whole client) view Fits
  redis-IsHealthy = record {
    get_answer = λ k s. ap (λ r. r.0) (get_is k s) ∙ found_or_answer (view s k) (client.get k s).1;
    get_keeps = λ k j s.
        ap (λ r. view r.1 j) (get_is k s)
        ∙ ap (λ x. view x j) (found_or_state (view s k) (client.get k s).1)
        ∙ serves.get_keeps k j s;
    set_answer = set_answers;
    set_writes = λ k j v t s f.
        ap (λ r. view r.1 j) (set_is k v t s f.0)
        ∙ serves.set_writes k j v _ s (duration_nonneg t f);
    set_keeps_other = set_keeps;
    delete_answer = λ k s. ap (λ r. r.0) (delete_is k s);
    delete_drops = λ k j s. ap (λ r. view r.1 j) (delete_is k s) ∙ serves.del_drops k j s;
  }
