-- ===== src/ServerState/Flush.antt =====
-- src/server/ServerState.cpp: `flush_send_buffer`, without the code for Windows. While it runs
-- m_sending_key is set, so that a call of it from a virtual key that it toggles returns at once.
use keymapper.Prelude.{
  ℕ, zero, suc, ◌+◌, ◌-◌, Bool, true, false, ◌&&◌, [], ◌∷◌, none, some, ◌==◌, if◌then◌else◌,
}
use keymapper.Key
use keymapper.Key.{Key, is_mouse_wheel, is_action_key, is_virtual_key}
use keymapper.KeyEvent.{down, KeyEvent, KeySequence, state_eq}
use keymapper.ServerState.State.{
  ServerState, Platform, sent_key, flushed, triggered_action, record_effect, schedule_flush,
}
use keymapper.ServerState.Input.{toggle_virtual_key}

abbrev pub drop : ℕ → KeySequence → KeySequence
drop zero buffer = buffer
drop (suc n) [] = []
drop (suc n) (event ∷ buffer) = drop n buffer

-- The number of events that are done with, whether all was sent, and the state.
pub record Flushed : Type 0 where
  pub count : ℕ
  pub succeeded : Bool
  pub state : ServerState

module _ (platform : Platform) (now : ℕ) where
  -- The virtual key's output is inserted behind the event at `i`.
  unfoldable pub toggle_in_place : ℕ → Key → ServerState → ServerState
  toggle_in_place i key s =
      record (toggle_virtual_key platform now (λ (nested : ServerState). nested) key
        (record s { insert_in_send_buffer_at = some (i + 1) })) { insert_in_send_buffer_at = none }

  -- The body of the loop: `go_on` is the next round, and `toggled` the one behind a toggled virtual key.
  unfoldable pub flush_event :
      ℕ → KeyEvent → (ServerState → Flushed) → (ServerState → Flushed) → ServerState → Flushed
  flush_event i event go_on toggled s =
      if is_mouse_wheel event.key && state_eq event.state down
      then go_on s
      else if is_action_key event.key
      then go_on (
          if state_eq event.state down
          then record_effect (triggered_action (event.key - Key.first_action)) s
          else s)
      else if is_virtual_key event.key
      then (if state_eq event.state down then toggled s else go_on s)
      else if event.key == Key.timeout
      then record { count = i + 1; succeeded = true; state = schedule_flush now event.value s }
      else if platform.on_send_key s.effects event
      then go_on (record_effect (sent_key event) s)
      else record { count = i; succeeded = false; state = record_effect (sent_key event) s }

  -- The loop: how many virtual keys it still toggles, `i`, and the events from `i` on.
  unfoldable pub flush_loop : ℕ → ℕ → KeySequence → ServerState → Flushed
  flush_loop toggles i [] s = record { count = i; succeeded = true; state = s }
  flush_loop zero i (event ∷ events) s =
      flush_event i event (flush_loop zero (i + 1) events) (flush_loop zero (i + 1) events) s
  flush_loop (suc fewer) i (event ∷ events) s =
      flush_event i event (flush_loop (suc fewer) (i + 1) events)
        (λ before.
          let s' = toggle_in_place i event.key before in
          flush_loop fewer (i + 1) (drop (i + 1) s'.send_buffer) s')
        s

  abbrev pub finish_flush : Flushed → Bool × ServerState
  finish_flush f = (
    f.succeeded && platform.on_flushed_send_buffer f.state.effects,
    record (record_effect flushed f.state) {
      send_buffer = drop f.count f.state.send_buffer;
      sending_key = false;
    },
  )

  -- Nine virtual keys are toggled at most.
  unfoldable pub flush_send_buffer : ServerState → Bool × ServerState
  flush_send_buffer s =
      if s.sending_key
      then (true, s)
      else finish_flush (
          flush_loop 9 0 s.send_buffer (record s { sending_key = true; flush_scheduled_at = none }))

  abbrev pub flush : ServerState → ServerState
  flush s = (flush_send_buffer s).1
