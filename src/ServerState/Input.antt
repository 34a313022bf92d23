-- ===== src/ServerState/Input.antt =====
-- src/server/ServerState.cpp: the translation of an input, without the code for Windows. The method
-- calls itself for the event of a timeout, which it does not do again for this event, and for the Down
-- of a mouse wheel, for which it does so only for the event of a timeout.
use keymapper.Prelude.{
  ℕ, ℤ, pos, negsuc, ◌-◌, Bool, false, ◌&&◌, ◌||◌, List, [], Option, none, some, map, ◌==◌,
  if◌then◌else◌, negate, is_empty, push, get_elem?, contains, find_if, remove_first,
}
use keymapper.Key
use keymapper.Key.{Key, is_device_key, is_mouse_wheel, is_keyboard_key, is_virtual_key}
use keymapper.KeyEvent.{
  KeyState, up, down, not, KeyEvent, KeySequence, key_event, state_eq, event_eq,
  cancel_timeout_on_up,
}
use keymapper.Timeout.{make_input_timeout_event}
use keymapper.Stage.State.{any_device_index}
use keymapper.Stage.Setup.{DeviceDesc}
use keymapper.MultiStage
use keymapper.ServerState.State.{
  ServerState, Platform, next_key_info, virtual_key_state, exit_requested, is_some, record_effect,
  send_key_sequence, schedule_timeout, cancel_timeout, reset_configuration,
}

unfoldable pub get_device_desc : ℤ → List DeviceDesc → Option DeviceDesc
get_device_desc (pos index) descs = get_elem? descs index
get_device_desc (negsuc index) descs = none

-- The device's description, or the error message of the platform.
abbrev pub device_or_error : Platform → Option DeviceDesc → DeviceDesc
device_or_error platform none = record { name = platform.devices_error_message; id = "" }
device_or_error platform (some device) = device

-- The reply to a request of the next keys.
unfoldable pub collect_next_key_info : Platform → KeyEvent → ℤ → ServerState → ServerState
collect_next_key_info platform input device_index s =
    if state_eq input.state down
    then (if contains input.key s.next_key_info_keys
        then s
        else record s { next_key_info_keys = push s.next_key_info_keys input.key })
    else if negate (is_empty s.next_key_info_keys)
    then record_effect
        (next_key_info s.next_key_info_keys
          (device_or_error platform (get_device_desc device_index s.device_descs)))
        (record s { next_key_info_keys = []; next_key_info_requested = false })
    else s

abbrev pub is_repeat : KeyEvent → ServerState → Bool
is_repeat input s =
    event_eq input s.last_key_event && (is_some s.flush_scheduled_at || is_some s.timeout_start_at)

abbrev pub is_info_input : KeyEvent → ServerState → Bool
is_info_input input s =
    s.next_key_info_requested && (is_device_key input.key && negate (input.key == Key.button_left))

abbrev pub cancels_timeout : KeyEvent → ServerState → Bool
cancels_timeout input s =
    is_some s.timeout_start_at && (state_eq input.state down || s.cancel_timeout_on_up)

abbrev pub time_since : ℕ → Option ℕ → ℕ
time_since now none = 0
time_since now (some start) = now - start

abbrev pub is_timeout : KeyEvent → Bool
is_timeout event = event.key == Key.timeout

-- The first timeout of the output is scheduled and taken out.
unfoldable pub schedule_output_timeout : ℕ → KeySequence → ServerState → KeySequence × ServerState
schedule_output_timeout now output s = elim (find_if is_timeout output) [
  | none ↦ (output, s)
  | some event ↦ (
    remove_first is_timeout output,
    schedule_timeout now event.value (cancel_timeout_on_up event.state) s,
  )
]

unfoldable pub copy_wheel_value : KeyEvent → KeySequence → KeySequence
copy_wheel_value input output =
    if is_mouse_wheel input.key
    then map
        (λ (event : KeyEvent).
          if is_mouse_wheel event.key && event.value == 0
          then record event { value = input.value }
          else event)
        output
    else output

module _ (platform : Platform) (now : ℕ) (flush : ServerState → ServerState) where
  -- Behind the update of the stage: `output` is what it has put out.
  unfoldable pub finish_input : KeyEvent → KeySequence → ServerState → ServerState
  finish_input input output s =
      if MultiStage.should_exit s.stage
      then record_effect exit_requested (reset_configuration now flush none s)
      else (let scheduled = schedule_output_timeout now output s in
          let sent = send_key_sequence (copy_wheel_value input scheduled.0) scheduled.1 in
          record sent { stage = MultiStage.reuse_buffer sent.stage })

  -- From the update of `m_last_key_event` on.
  unfoldable pub update_stages : KeyEvent → ℤ → ServerState → ServerState
  update_stages input device_index s =
      let noted = if is_keyboard_key input.key then record s { last_key_event = input } else s in
      let r = MultiStage.update now input device_index noted.stage in
      finish_input input r.0 (record noted { stage = r.1 })

  -- The checks in front, and what follows where they let the input pass.
  abbrev pub guarded : KeyEvent → ℤ → (ServerState → ServerState) → ServerState → ServerState
  guarded input device_index pass s =
      if is_repeat input s
      then s
      else if is_info_input input s
      then collect_next_key_info platform input device_index s
      else pass s

  -- `translate_input` of the event of a timeout, for which no timeout is pending any more.
  unfoldable pub translate_timeout : KeyEvent → ℤ → ServerState → ServerState
  translate_timeout input device_index =
      guarded input device_index (update_stages input device_index)

  unfoldable pub cancel_and_inject : KeyEvent → ℤ → ServerState → ServerState
  cancel_and_inject input device_index s =
      if cancels_timeout input s
      then translate_timeout (make_input_timeout_event (time_since now s.timeout_start_at))
          device_index (cancel_timeout s)
      else s

  -- `translate_input` of an event that is no Up of a mouse wheel.
  unfoldable pub translate_event : KeyEvent → ℤ → ServerState → ServerState
  translate_event input device_index =
      guarded input device_index
        (λ s. update_stages input device_index (cancel_and_inject input device_index s))

  abbrev pub wheel_down : KeyEvent → KeyEvent
  wheel_down input = record input { state = down }

  -- Its result is true.
  unfoldable pub translate_input : KeyEvent → ℤ → ServerState → ServerState
  translate_input input device_index = guarded input device_index (λ s.
      let ready = cancel_and_inject input device_index s in
      update_stages input device_index (
        if is_mouse_wheel input.key && state_eq input.state up
        then translate_event (wheel_down input) device_index ready
        else ready))

  -- `m_client->send_virtual_key_state` at the end of `set_virtual_key_state`.
  abbrev pub send_state : Key → KeyState → ServerState → ServerState
  send_state key state s =
      if is_virtual_key key then record_effect (virtual_key_state key state) s else s

  unfoldable pub set_virtual_key_state : Key → KeyState → ServerState → ServerState
  set_virtual_key_state key state s =
      if negate (contains key s.virtual_keys_down) && negate (state_eq state up)
      then send_state key down (
          translate_input (key_event key down) any_device_index
            (record s { virtual_keys_down = push s.virtual_keys_down key }))
      else if contains key s.virtual_keys_down && negate (state_eq state down)
      then send_state key up (
          translate_input (key_event key up) any_device_index (record s {
            virtual_keys_down = remove_first (λ (k : Key). k == key) s.virtual_keys_down;
          }))
      else s

  unfoldable pub toggle_virtual_key : Key → ServerState → ServerState
  toggle_virtual_key key = set_virtual_key_state key not
