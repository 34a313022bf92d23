-- ===== src/ServerState/Keeps.antt =====
-- src/server/ServerState.cpp: what the translation of inputs leaves alone. A property of the virtual keys
-- that are down and of what was done is kept where it holds without keys, and behind any further effect
-- but the state of a virtual key.
use keymapper.Prelude.{
  ℕ, ℤ, ◌+◌, ◌==◌, ◌≡◌, refl, Bool, true, false, ◌&&◌, ◌||◌, List, [], Option, none, if◌then◌else◌,
  negate, is_empty, push, contains, find_if, if_rule, option_rule,
}
use keymapper.Key
use keymapper.Key.{
  Key, is_device_key, is_mouse_wheel, is_keyboard_key, is_action_key, is_virtual_key,
}
use keymapper.KeyEvent.{up, down, KeyEvent, KeySequence, state_eq}
use keymapper.Timeout.{make_input_timeout_event}
use keymapper.MultiStage
use keymapper.MultiStage.{MultiStage}
use keymapper.ServerState.State.{
  Effect, Platform, ServerState, cancel_timeout, evaluate_device_filters, exit_requested,
  flush_scheduled, flush_unless_scheduled, is_some, next_key_info, release_all_keys,
  reset_configuration, schedule_flush, schedule_timeout, send_key_sequence, sent_key,
  set_active_contexts, timeout_cancelled, timeout_scheduled, triggered_action, virtual_key_state,
}
use keymapper.ServerState.Flush.{Flushed, flush_event}
use keymapper.ServerState.Input.{
  cancel_and_inject, cancels_timeout, collect_next_key_info, finish_input, guarded, is_info_input,
  is_repeat, schedule_output_timeout, time_since, translate_event, translate_input,
  translate_timeout, update_stages,
}

abbrev pub is_virtual_key_state : Effect → Bool
is_virtual_key_state (virtual_key_state key state) = true
is_virtual_key_state _ = false

module _ (I : List Key → List Effect → Type 0)
    (quiet : (keys : List Key) (effects : List Effect) (effect : Effect)
      → is_virtual_key_state effect ≡ false
      → I keys effects
      → I keys (push effects effect))
    (clear : (keys : List Key) (effects : List Effect) → I keys effects → I [] effects) where
  abbrev pub Holds : ServerState → Type 0
  Holds s = I s.virtual_keys_down s.effects

  pub schedule_flush-Holds :
      (now delay : ℕ) (s : ServerState) → Holds s → Holds (schedule_flush now delay s)
  unfolding schedule_flush
  schedule_flush-Holds now delay s h =
      if_rule Holds (is_some s.flush_scheduled_at) (λ _. h)
        (λ _. quiet _ _ (flush_scheduled _) refl h)

  schedule_timeout-Holds :
      (now timeout : ℕ) (cancel : Bool) (s : ServerState)
      → Holds s
      → Holds (schedule_timeout now timeout cancel s)
  unfolding schedule_timeout
  schedule_timeout-Holds now timeout cancel s h = quiet _ _ (timeout_scheduled timeout) refl h

  cancel_timeout-Holds : (s : ServerState) → Holds s → Holds (cancel_timeout s)
  unfolding cancel_timeout
  cancel_timeout-Holds s h = quiet _ _ timeout_cancelled refl h

  pub release_all_keys-Holds : (s : ServerState) → Holds s → Holds (release_all_keys s)
  unfolding release_all_keys
  release_all_keys-Holds s h = h

  pub send_key_sequence-Holds :
      (sequence : KeySequence) (s : ServerState) → Holds s → Holds (send_key_sequence sequence s)
  unfolding send_key_sequence
  send_key_sequence-Holds sequence s h = h

  module _ (now : ℕ) (flush : ServerState → ServerState)
      (flush_keeps : (s : ServerState) → Holds s → Holds (flush s)) where
    pub flush_unless-Holds :
        (s : ServerState) → Holds s → Holds (flush_unless_scheduled now flush s)
    flush_unless-Holds s h =
        if_rule Holds (is_some s.flush_scheduled_at) (λ _. h) (λ _. flush_keeps s h)

    pub set_active_contexts-Holds :
        (indices : List ℕ) (s : ServerState)
        → Holds s
        → Holds (set_active_contexts now flush indices s)
    unfolding set_active_contexts
    set_active_contexts-Holds indices s h =
        flush_unless-Holds _ (send_key_sequence-Holds _ (record s { stage = _ }) h)

    pub evaluate_device_filters-Holds :
        (s : ServerState) → Holds s → Holds (evaluate_device_filters now flush s)
    unfolding evaluate_device_filters
    evaluate_device_filters-Holds s h =
        if_rule Holds (negate (MultiStage.has_device_filters s.stage) || is_empty s.device_descs)
          (λ _. h)
          (λ _. set_active_contexts-Holds s.stage.active_client_contexts (record s { stage = _ }) h)

    pub reset_configuration-Holds :
        (stage : Option MultiStage) (s : ServerState)
        → Holds s
        → Holds (reset_configuration now flush stage s)
    unfolding reset_configuration
    reset_configuration-Holds stage s h =
        evaluate_device_filters-Holds _ (clear _ _ (flush_keeps _ (release_all_keys-Holds s h)))

    module _ (platform : Platform) where
      schedule_output_timeout-Holds :
          (output : KeySequence) (s : ServerState)
          → Holds s
          → Holds (schedule_output_timeout now output s).1
      unfolding schedule_output_timeout
      schedule_output_timeout-Holds output s h =
          option_rule (λ (r : KeySequence × ServerState). Holds r.1) (find_if _ output) (λ _. h)
            (λ event _. schedule_timeout-Holds now event.value _ s h)

      finish_input-Holds :
          (input : KeyEvent) (output : KeySequence) (s : ServerState)
          → Holds s
          → Holds (finish_input platform now flush input output s)
      unfolding finish_input
      finish_input-Holds input output s h =
          if_rule Holds (MultiStage.should_exit s.stage)
            (λ _. quiet _ _ exit_requested refl (reset_configuration-Holds none s h))
            (λ _.
              send_key_sequence-Holds _ (schedule_output_timeout now output s).1
                (schedule_output_timeout-Holds output s h))

      update_stages-Holds :
          (input : KeyEvent) (device_index : ℤ) (s : ServerState)
          → Holds s
          → Holds (update_stages platform now flush input device_index s)
      unfolding update_stages
      update_stages-Holds input device_index s h = finish_input-Holds input _ _ (
          if_rule Holds (is_keyboard_key input.key) {x = record s { last_key_event = input }}
            {y = s} (λ _. h) (λ _. h))

      collect_next_key_info-Holds :
          (input : KeyEvent) (device_index : ℤ) (s : ServerState)
          → Holds s
          → Holds (collect_next_key_info platform input device_index s)
      unfolding collect_next_key_info
      collect_next_key_info-Holds input device_index s h =
          if_rule Holds (state_eq input.state down)
            (λ _. if_rule Holds (contains input.key s.next_key_info_keys) (λ _. h) (λ _. h))
            (λ _.
              if_rule Holds (negate (is_empty s.next_key_info_keys))
                (λ _. quiet _ _ (next_key_info _ _) refl h) (λ _. h))

      guarded-Holds :
          (input : KeyEvent) (device_index : ℤ) (pass : ServerState → ServerState) (s : ServerState)
          → (Holds s → Holds (pass s))
          → Holds s
          → Holds (guarded platform now flush input device_index pass s)
      guarded-Holds input device_index pass s keeps h =
          if_rule Holds (is_repeat input s) (λ _. h)
            (λ _.
              if_rule Holds (is_info_input input s)
                (λ _. collect_next_key_info-Holds input device_index s h) (λ _. keeps h))

      translate_timeout-Holds :
          (input : KeyEvent) (device_index : ℤ) (s : ServerState)
          → Holds s
          → Holds (translate_timeout platform now flush input device_index s)
      unfolding translate_timeout
      translate_timeout-Holds input device_index s h =
          guarded-Holds input device_index (update_stages platform now flush input device_index) s
            (update_stages-Holds input device_index s) h

      cancel_and_inject-Holds :
          (input : KeyEvent) (device_index : ℤ) (s : ServerState)
          → Holds s
          → Holds (cancel_and_inject platform now flush input device_index s)
      unfolding cancel_and_inject
      cancel_and_inject-Holds input device_index s h =
          if_rule Holds (cancels_timeout input s)
            (λ _.
              translate_timeout-Holds (make_input_timeout_event (time_since now s.timeout_start_at))
                device_index (cancel_timeout s) (cancel_timeout-Holds s h))
            (λ _. h)

      translate_event-Holds :
          (input : KeyEvent) (device_index : ℤ) (s : ServerState)
          → Holds s
          → Holds (translate_event platform now flush input device_index s)
      unfolding translate_event
      translate_event-Holds input device_index s h =
          guarded-Holds input device_index
            (λ t.
              update_stages platform now flush input device_index
                (cancel_and_inject platform now flush input device_index t))
            s
            (λ k.
              update_stages-Holds input device_index _
                (cancel_and_inject-Holds input device_index s k))
            h

      -- The state that is ready for the update.
      ready-Holds :
          (input : KeyEvent) (device_index : ℤ) (s : ServerState)
          → Holds s
          → Holds (
              if is_mouse_wheel input.key && state_eq input.state up
              then translate_event platform now flush
                  (record input { state = down })
                  device_index
                  (cancel_and_inject platform now flush input device_index s)
              else cancel_and_inject platform now flush input device_index s)
      ready-Holds input device_index s h =
          let injected = cancel_and_inject-Holds input device_index s h in
          if_rule Holds (is_mouse_wheel input.key && state_eq input.state up)
            (λ _. translate_event-Holds (record input { state = down }) device_index _ injected)
            (λ _. injected)

      pub translate_input-Holds :
          (input : KeyEvent) (device_index : ℤ) (s : ServerState)
          → Holds s
          → Holds (translate_input platform now flush input device_index s)
      unfolding translate_input
      translate_input-Holds input device_index s h =
          guarded-Holds input device_index
            (λ t. update_stages platform now flush input device_index (
              if is_mouse_wheel input.key && state_eq input.state up
              then translate_event platform now flush (record input { state = down }) device_index
                  (cancel_and_inject platform now flush input device_index t)
              else cancel_and_inject platform now flush input device_index t))
            s (λ k. update_stages-Holds input device_index _ (ready-Holds input device_index s k)) h

  module _ (platform : Platform) (now : ℕ) where
    -- An event of the send buffer, where `Q` holds of the end of the loop, of the next round and of the
    -- one behind a toggled virtual key.
    pub flush_event_rule :
        (Q : Flushed → Type 0) (i : ℕ) (event : KeyEvent) (go_on toggled : ServerState → Flushed)
        (s : ServerState)
        → ((count : ℕ) (succeeded : Bool) (t : ServerState)
            → Holds t
            → Q (record { count = count; succeeded = succeeded; state = t }))
        → ((t : ServerState) → Holds t → Q (go_on t))
        → ((t : ServerState) → Holds t → Q (toggled t))
        → Holds s
        → Q (flush_event platform now i event go_on toggled s)
    unfolding flush_event
    flush_event_rule Q i event go_on toggled s at_end next behind h =
        if_rule Q (is_mouse_wheel event.key && state_eq event.state down) (λ _. next s h)
          (λ _.
            if_rule Q (is_action_key event.key)
              (λ _. next _ (
                if_rule Holds (state_eq event.state down)
                  (λ _. quiet _ _ (triggered_action _) refl h) (λ _. h)))
              (λ _.
                if_rule Q (is_virtual_key event.key)
                  (λ _. if_rule Q (state_eq event.state down) (λ _. behind s h) (λ _. next s h))
                  (λ _.
                    if_rule Q (event.key == Key.timeout)
                      (λ _. at_end (i + 1) true _ (schedule_flush-Holds now event.value s h))
                      (λ _.
                        if_rule Q (platform.on_send_key s.effects event)
                          (λ _. next _ (quiet _ _ (sent_key event) refl h))
                          (λ _. at_end i false _ (quiet _ _ (sent_key event) refl h))))))
