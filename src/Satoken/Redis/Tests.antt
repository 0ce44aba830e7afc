-- ===== src/Satoken/Redis/Tests.antt =====
-- A Redis server that is a map without expiry.
use acat_go_common.Common.{
  ◌≡◌, ◌≢◌, refl, ℕ, zero, suc, ◌<◌, none, some, [], ◌∷◌, String, Option, List, arith, eq_iff,
}
use acat_go_common.Common.Int.{pos}
use acat_go_common.Satoken.Redis.Scan.{first_keys, scan_loop, scan_keys, Bounded, scan_keys-Bounded}
use acat_go_common.Common.Assoc.{lookup, insert, remove, lookup-insert, lookup-remove}
use acat_go_common.Exec.{Exec, ok}
use acat_go_common.Satoken.Store.Healthy.{IsHealthy}
use acat_go_common.Satoken.Memory.Refinement.{Fits}
use acat_go_common.Satoken.Keys.{not_value_expire}
use acat_go_common.Satoken.Redis.{Client, redis_store}
use acat_go_common.Satoken.Redis.Serving.{IsServing, redis-IsHealthy}

abbrev Server : Type 0
Server = List (String × String)

abbrev client : Client Server
client = record {
  get = λ k s. (ok (lookup k s), s);
  set = λ k v d s. (ok tt, insert k v s);
  del = λ k s. (ok tt, remove k s);
  ttl = λ k s. (ok not_value_expire, s);
  expire = λ k d s. (ok tt, s);
}

abbrev held : Server → String → Option String
held s k = lookup k s

client-IsServing : IsServing client held
client-IsServing = record {
  get_answer = λ k s. refl;
  get_keeps = λ k j s. refl;
  set_answer = λ k v d s. refl;
  set_writes = λ k j v d s h. lookup-insert k j v s;
  set_keeps_other = λ k j v d s n. rw lookup-insert (ground (arith, eq_iff k j));
  del_answer = λ k s. refl;
  del_drops = λ k j s. lookup-remove k j s;
}

redis-IsHealthy_example : IsHealthy (redis_store (λ d. d) client) held Fits
redis-IsHealthy_example = redis-IsHealthy client client-IsServing (λ d. d)

-- Two pages: cursor 0 leads to 5, and 5 to the end.
unfoldable pages : ℕ → String → Exec Unit (List String × ℕ)
pages zero pattern s = (ok ("user:1" ∷ "user:2" ∷ [], 5), s)
pages (suc n) pattern s = (ok ("user:3" ∷ [], 0), s)

unfoldable rank : ℕ → ℕ
rank zero = 1
rank (suc n) = 0

pages_fall :
    (cursor : ℕ) (keys : List String) (next : ℕ) (s : Unit)
    → (pages cursor "user:*" s).0 ≡ ok (keys, next)
    → next ≢ 0
    → rank next < rank cursor
unfolding pages rank
pages_fall cursor keys zero s q n = absurd (n refl)
pages_fall zero keys (suc n) s q m = omega arith
pages_fall (suc c) keys (suc n) s q m = absurd (cc q)

scan_keys-Bounded_example :
    ((scan_keys pages "user:*" (pos 2) (suc (rank 0)) tt).0 ≢ none)
    × Bounded pages "user:*" (pos 2) (scan_keys pages "user:*" (pos 2) (suc (rank 0)) tt).0
scan_keys-Bounded_example = scan_keys-Bounded pages "user:*" (pos 2) rank pages_fall tt

abbrev two : List String
two = "user:1" ∷ "user:2" ∷ []

two_keys : (scan_keys pages "user:*" (pos 2) 2 tt).0 ≡ some (ok two)
unfolding scan_keys scan_loop first_keys pages
two_keys = refl
