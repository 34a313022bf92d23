-- ===== src/Timeout/Tests.antt =====
-- Sums of timeouts at concrete durations.
use keymapper.Prelude.{[], ◌≡◌, refl, ◌∷◌, foldl, min}
use keymapper.Timeout.{max_timeout, sum_timeouts, duration_to_timeout}
use keymapper.Timeout.Sums.{total, sum_timeouts-total}

-- A duration above the 12 bits, as `5000ms` in a configuration.
clamped : duration_to_timeout 5000 ≡ 4095
unfolding duration_to_timeout
clamped = refl

sum_timeouts-total_example :
    foldl sum_timeouts 0 (2000 ∷ 1500 ∷ 1000 ∷ [])
    ≡ min (total (2000 ∷ 1500 ∷ 1000 ∷ [])) max_timeout
sum_timeouts-total_example = sum_timeouts-total (2000 ∷ 1500 ∷ 1000 ∷ [])
