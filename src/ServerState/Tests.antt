-- ===== src/ServerState/Tests.antt =====
-- Requests and flushes of a server.
use keymapper.Prelude.{ℕ, ◌+◌, ◌≤◌, ◌≡◌, refl, pos, true, List, [], ◌∷◌, ◌++◌, some, map, Distinct}
use keymapper.Key
use keymapper.Key.{is_mouse_wheel, is_action_key, is_virtual_key}
use keymapper.KeyEvent.{up, down, not, KeyEvent, KeySequence, key_event}
use keymapper.ServerState.State.{Platform, ServerState, flush_scheduled, flushed, initial, sent_key}
use keymapper.ServerState.Flush.{flush, flush_send_buffer}
use keymapper.ServerState.VirtualKeys.{
  Request, flush_due, inject_output, input, serve_all, virtual_key, virtual_keys_down-Distinct,
}
use keymapper.ServerState.Toggles.{told, flush_send_buffer-told}
use keymapper.ServerState.FlushOrder.{flush_send_buffer-timeout}

-- A platform that accepts all keys.
abbrev platform : Platform
platform = record {
  on_send_key = λ effects event. true;
  on_flushed_send_buffer = λ effects. true;
  on_validate_key_is_down = λ key. true;
  devices_error_message = "";
}

abbrev requests : List (ℕ × Request)
requests =
    (0, virtual_key 62976 down)
    ∷ (1, input (key_event 30 down) (pos 0))
    ∷ (2, inject_output (key_event 62976 down ∷ []))
    ∷ (3, flush_due)
    ∷ (4, virtual_key 62976 not)
    ∷ []

virtual_keys_down-Distinct_example :
    Distinct (serve_all platform requests initial).virtual_keys_down
virtual_keys_down-Distinct_example = virtual_keys_down-Distinct platform requests initial tt

abbrev toggling : ServerState
toggling = record initial {
  send_buffer = key_event 62976 down ∷ key_event 30 down ∷ key_event 62977 down ∷ [];
}

flush_send_buffer-told_example :
    told (flush_send_buffer platform 5 toggling).1.effects ≤ told toggling.effects + 9
flush_send_buffer-told_example = flush_send_buffer-told platform 5 toggling

abbrev timeout_event : KeyEvent
timeout_event = record { key = Key.timeout; state = down; value = 250 }

abbrev keys : KeySequence
keys = key_event 30 down ∷ key_event 30 up ∷ []

abbrev waiting : ServerState
waiting = record initial { send_buffer = keys ++ timeout_event ∷ key_event 48 down ∷ [] }

flush_send_buffer-timeout_example :
    ((flush platform 5 waiting).send_buffer ≡ key_event 48 down ∷ [])
    × ((flush platform 5 waiting).effects
        ≡ (waiting.effects ++ map sent_key keys)
          ++ flush_scheduled timeout_event.value ∷ flushed ∷ [])
    × ((flush platform 5 waiting).flush_scheduled_at ≡ some (5 + timeout_event.value))
unfolding is_mouse_wheel is_action_key is_virtual_key
flush_send_buffer-timeout_example =
    flush_send_buffer-timeout platform 5 (λ effects event. refl) keys (key_event 48 down ∷ [])
      timeout_event waiting refl refl ((refl, refl, refl, refl), ((refl, refl, refl, refl), tt))
      refl
