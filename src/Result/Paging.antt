-- ===== src/Result/Paging.antt =====
-- Paging parameters and SQL offsets of result/result.go.
use acat_go_common.Common.{ap, suc, zero, ◌≡◌, arith, ℕ, ◌*◌, ◌-◌, ◌≤◌, ◌<◌, ◌^◌}
use acat_go_common.Common.Int.{ℤ, pos, ◌≤ℤ◌, ◌+ℤ◌, ◌-ℤ◌, wrap64_in_range, pos-times}
use acat_go_common.Result.{at_least_one, normalize_page, offset}

-- The normalised page index is at least 1, and the page size lies between 1 and 100.
normalize_page_bounds :
    (i n : ℤ)
    → (pos 1 ≤ℤ (normalize_page i n).0)
      × (pos 1 ≤ℤ (normalize_page i n).1)
      × ((normalize_page i n).1 ≤ℤ pos 100)
unfolding normalize_page
normalize_page_bounds i n = ground arith

-- Parameters that are in range already are left as they are.
normalize_page_in_range :
    (i n : ℤ) → pos 1 ≤ℤ i → pos 1 ≤ℤ n → n ≤ℤ pos 100 → normalize_page i n ≡ (i, n)
unfolding normalize_page
normalize_page_in_range i n hi hn hm = ground arith

pos-minus_one : (i : ℕ) → 1 ≤ i → pos i -ℤ pos 1 ≡ pos (i - 1)
unfolding ◌-ℤ◌
pos-minus_one i h = ground arith

at_least_one_pos : (n d : ℕ) → 1 ≤ n → at_least_one (pos n) (pos d) ≡ pos n
at_least_one_pos n d h = ground arith

offset_pos : (k n : ℕ) → 1 ≤ n → k * n < 2 ^ 63 → offset (pos (suc k)) (pos n) ≡ pos (k * n)
unfolding offset
offset_pos k n hn fits =
    let index = at_least_one_pos (suc k) 1 (omega arith) in
    let size = at_least_one_pos n 10 hn in
    let back : suc k - 1 ≡ k = omega arith in
    rw (index, size, pos-minus_one (suc k) (omega arith), back, pos-times k n)
      (wrap64_in_range (pos (k * n)) (omega arith) (omega arith))

-- Where no offset overflows an int64, the first page starts at row 0 and every page starts where
-- the page before it ends.
pub offset_tiles :
    (i n : ℕ)
    → 1 ≤ i
    → 1 ≤ n
    → i * n < 2 ^ 63
    → (offset (pos 1) (pos n) ≡ pos 0)
      × (offset (pos (suc i)) (pos n) ≡ offset (pos i) (pos n) +ℤ pos n)
unfolding ◌+ℤ◌
offset_tiles zero n hi hn fits = elim hi [ ]
offset_tiles (suc k) n hi hn fits =
    let earlier : k * n < 2 ^ 63 = grind arith in
    (
      rw (offset_pos 0 n hn (omega arith)) (ap pos (omega arith)),
      rw (offset_pos (suc k) n hn fits, offset_pos k n hn earlier) (ground arith),
    )
