-- ===== src/Timeout/Sums.antt =====
-- src/runtime/Timeout.h: many timeouts added up.
use keymapper.Prelude.{ℕ, ◌+◌, ◌≤◌, ◌≡◌, List, [], ◌∷◌, foldl, min, arith}
use keymapper.Timeout.{max_timeout, sum_timeouts}

abbrev pub total : List ℕ → ℕ
total [] = 0
total (t ∷ ts) = t + total ts

sums_from :
    (ts : List ℕ) (start : ℕ)
    → start ≤ max_timeout
    → foldl sum_timeouts start ts ≡ min (start + total ts) max_timeout
unfolding sum_timeouts
sums_from [] start h = ground arith
sums_from (t ∷ ts) start h =
    ground (arith, sums_from ts (min (start + t) max_timeout) (omega arith))

-- Adding up timeouts one by one gives their exact total, or the largest value of the event's bits
-- where the total exceeds it; so it depends neither on their order nor on their grouping.
pub sum_timeouts-total : (ts : List ℕ) → foldl sum_timeouts 0 ts ≡ min (total ts) max_timeout
sum_timeouts-total ts = ground (arith, sums_from ts 0 (omega arith))
