-- ===== src/Satoken/Redis/Scan.antt =====
-- satoken/store_redis.go: `ScanKeys`, a loop over the pages of `SCAN`.
use acat_go_common.Common.{
  ◌≡◌, ◌≢◌, inl, inr, ℕ, zero, suc, ◌≤◌, ◌<◌, String, Bool, false, ◌||◌, Option, none, some, List,
  [], ◌∷◌, ◌++◌, length, leb, nat_eq, if◌then◌else◌, Bool-cases, arith,
}
use acat_go_common.Common.Int.{ℤ, pos, leb_ℤ, pos_part}
use acat_go_common.Exec.{Return-cases, Return, Exec, ok, err}
use acat_go_common.Satoken.Redis.{redis_failed}

unfoldable pub first_keys : ℕ → List String → List String
first_keys zero keys = []
first_keys (suc n) [] = []
first_keys (suc n) (k ∷ keys) = k ∷ first_keys n keys

-- `if limit <= 0 { limit = 100 }`
abbrev pub limit_or : ℤ → ℕ
limit_or limit = if leb_ℤ limit (pos 0) then 100 else pos_part limit

-- `SCAN` of a cursor with a pattern: a page and the next cursor, 0 at the end.
module _ {S : Type 0} (scan : ℕ → String → Exec S (List String × ℕ)) (pattern : String)
    (limit : ℤ) where
  -- the keys of all pages, or of as many as fill the limit; `none` is a loop out of fuel
  unfoldable pub scan_loop : ℕ → ℕ → List String → S → Option (Return (List String)) × S
  scan_loop zero cursor out s = (none, s)
  scan_loop (suc fuel) cursor out s =
      let (page, s') = scan cursor pattern s in
      elim page [
        | err e ↦ (some (err (redis_failed "scan" pattern e)), s')
        | ok (keys, next) ↦
            let all = out ++ keys in
            let more = scan_loop fuel next all s' in
            if nat_eq next 0 || leb (limit_or limit) (length all)
            then (some (ok (first_keys (limit_or limit) all)), s')
            else more
      ]

  unfoldable pub scan_keys : ℕ → S → Option (Return (List String)) × S
  unfolding scan_loop first_keys
  scan_keys fuel s = scan_loop fuel 0 [] s

  first_keys-length : (n : ℕ) (keys : List String) → length (first_keys n keys) ≤ n
  unfolding first_keys
  first_keys-length zero keys = omega arith
  first_keys-length (suc n) [] = omega arith
  first_keys-length (suc n) (k ∷ keys) = omega (arith, first_keys-length n keys)

  -- what a loop that has ended with keys may return
  abbrev pub Bounded : Option (Return (List String)) → Type 0
  Bounded none = Unit
  Bounded (some (err e)) = Unit
  Bounded (some (ok keys)) = length keys ≤ limit_or limit

  loop-Bounded :
      (fuel cursor : ℕ) (out : List String) (s : S) → Bounded (scan_loop fuel cursor out s).0
  unfolding scan_loop
  loop-Bounded zero cursor out s = tt
  loop-Bounded (suc fuel) cursor out s = elim (Return-cases (scan cursor pattern s).0) [
    | inl (e, q) ↦ rw (scan_loop, q) tt
    | inr ((keys, next), q) ↦
        elim (Bool-cases (nat_eq next 0 || leb (limit_or limit) (length (out ++ keys)))) [
          | inl b ↦ rw (scan_loop, q, b) (first_keys-length (limit_or limit) (out ++ keys))
          | inr b ↦
              rw (scan_loop, q, b) (loop-Bounded fuel next (out ++ keys) (scan cursor pattern s).1)
        ]
  ]

  module _ (rank : ℕ → ℕ)
      (falls : (cursor : ℕ) (keys : List String) (next : ℕ) (s : S)
        → (scan cursor pattern s).0 ≡ ok (keys, next)
        → next ≢ 0
        → rank next < rank cursor) where
    loop_ends :
        (fuel cursor : ℕ) (out : List String) (s : S)
        → rank cursor < fuel
        → (scan_loop fuel cursor out s).0 ≢ none
    unfolding scan_loop
    loop_ends zero cursor out s h = absurd (omega (arith, h))
    loop_ends (suc fuel) cursor out s h = elim (Return-cases (scan cursor pattern s).0) [
      | inl (e, q) ↦ rw (scan_loop, q) (λ k. cc k)
      | inr ((keys, next), q) ↦
          elim (Bool-cases (nat_eq next 0 || leb (limit_or limit) (length (out ++ keys)))) [
            | inl b ↦ rw (scan_loop, q, b) (λ k. cc k)
            | inr b ↦
                let going : next ≢ 0 = (λ z.
                  absurd (zero_stops next (leb (limit_or limit) (length (out ++ keys))) z b)) in
                let less = falls cursor keys next s q going in
                rw (scan_loop, q, b)
                  (loop_ends fuel next (out ++ keys) (scan cursor pattern s).1
                    (omega (arith, h, less)))
          ]
    ]
      where
        zero_stops : (next : ℕ) (b : Bool) → next ≡ 0 → nat_eq next 0 || b ≡ false → ⊥
        zero_stops next b z h = ground (arith, z, h)

    -- Where the cursors of a scan fall by some rank until the last page, `ScanKeys` ends, with an error
    -- or with at most as many keys as its limit, which is 100 where none is given.
    pub scan_keys-Bounded :
        (s : S) → ((scan_keys (suc (rank 0)) s).0 ≢ none) × Bounded (scan_keys (suc (rank 0)) s).0
    unfolding scan_keys
    scan_keys-Bounded s =
        (loop_ends (suc (rank 0)) 0 [] s (omega arith), loop-Bounded (suc (rank 0)) 0 [] s)
