-- ===== src/Timeout.antt =====
-- src/runtime/Timeout.h: durations in the 12 bits that a key event keeps for them.
pub mod Sums
mod Tests
use keymapper.Prelude.{ℕ, ◌+◌, ◌%◌, min, ltb, if◌then◌else◌}
use keymapper.Key
use keymapper.KeyEvent.{KeyEvent, up, history_timing}

-- `(1 << KeyEvent::value_bits) - 1`
abbrev pub max_timeout : ℕ
max_timeout = 4095

-- The count of milliseconds goes through `int`: the low 32 bits, and a negative number clamps to 0.
-- Durations are not negative here.
unfoldable pub duration_to_timeout : ℕ → ℕ
duration_to_timeout milliseconds =
    let low = milliseconds % 4294967296 in if ltb low 2147483648 then min low max_timeout else 0

unfoldable pub sum_timeouts : ℕ → ℕ → ℕ
sum_timeouts a b = min (a + b) max_timeout

unfoldable pub make_input_timeout_event : ℕ → KeyEvent
unfolding duration_to_timeout
make_input_timeout_event duration = record {
  key = Key.timeout;
  state = up;
  value = duration_to_timeout duration;
}

unfoldable pub make_history_timeout_event : ℕ → KeyEvent
unfolding duration_to_timeout
make_history_timeout_event duration = record {
  key = Key.timeout;
  state = history_timing;
  value = duration_to_timeout duration;
}
