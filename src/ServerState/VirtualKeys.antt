-- ===== src/ServerState/VirtualKeys.antt =====
-- src/server/ServerState.cpp: the virtual keys that are down, over all that the server is asked to do.
use keymapper.Prelude.{
  ℕ, ℤ, zero, suc, ◌+◌, ◌≡◌, refl, Bool, true, false, ◌&&◌, ◌||◌, List, [], ◌∷◌, Option, none, some,
  if◌then◌else◌, negate, ◌==◌, push, contains, remove_first, any, foldl, if_rule, and_parts,
  Distinct, push-Distinct, remove_first-Distinct,
}
use Prim.Native.String.{String}
use keymapper.Key.{Key, is_virtual_key, is_device_key}
use keymapper.KeyEvent.{KeyState, up, down, not, KeyEvent, KeySequence, key_event, state_eq}
use keymapper.Stage.State.{any_device_index, no_device_index}
use keymapper.Stage.Setup.{DeviceDesc}
use keymapper.MultiStage.{MultiStage}
use keymapper.ServerState.State.{
  Effect, Platform, ServerState, record_effect, set_device_descs, virtual_key_state,
}
use keymapper.ServerState.Input.{set_virtual_key_state, toggle_virtual_key, translate_input}
use keymapper.ServerState.Flush.{drop, flush, flush_loop, flush_send_buffer, toggle_in_place}
use keymapper.ServerState.Requests.{
  inject, on_active_contexts_message, on_configuration_message, on_directives_message,
  on_inject_input_message, on_inject_output_message, on_request_next_key_info_message,
  on_set_virtual_key_state_message, on_validate_state_message,
}
use keymapper.ServerState.Keeps.{
  evaluate_device_filters-Holds, flush_event_rule, flush_unless-Holds, is_virtual_key_state,
  release_all_keys-Holds, reset_configuration-Holds, schedule_flush-Holds, send_key_sequence-Holds,
  set_active_contexts-Holds, translate_input-Holds,
}

abbrev KeysDistinct : ServerState → Type 0
KeysDistinct s = Distinct s.virtual_keys_down

abbrev DistinctKeys : List Key → List Effect → Type 0
DistinctKeys keys effects = Distinct keys

quiet :
    (keys : List Key) (effects : List Effect) (effect : Effect)
    → is_virtual_key_state effect ≡ false
    → DistinctKeys keys effects
    → DistinctKeys keys (push effects effect)
quiet keys effects effect q h = h

clear :
    (keys : List Key) (effects : List Effect) → DistinctKeys keys effects → DistinctKeys [] effects
clear keys effects h = tt

module _ (platform : Platform) (now : ℕ) where
  set_virtual_key_state-Distinct :
      (flush : ServerState → ServerState)
      → ((s : ServerState) → KeysDistinct s → KeysDistinct (flush s))
      → (key : Key) (state : KeyState) (s : ServerState) → KeysDistinct s
      → KeysDistinct (set_virtual_key_state platform now flush key state s)
  unfolding set_virtual_key_state
  set_virtual_key_state-Distinct flushing keeps key state s h =
      if_rule KeysDistinct (negate (contains key s.virtual_keys_down) && negate (state_eq state up))
        (λ absent. sent down _ (
          translate_input-Holds DistinctKeys quiet clear now flushing keeps platform
            (key_event key down) any_device_index
            (record s { virtual_keys_down = push s.virtual_keys_down key })
            (push-Distinct key s.virtual_keys_down
              (is_absent _ (and_parts _ (negate (state_eq state up)) absent).0) h)))
        (λ _.
          if_rule KeysDistinct (contains key s.virtual_keys_down && negate (state_eq state down))
            (λ _. sent up _ (
              translate_input-Holds DistinctKeys quiet clear now flushing keeps platform
                (key_event key up) any_device_index
                (record s {
                  virtual_keys_down = remove_first (λ (k : Key). k == key) s.virtual_keys_down;
                })
                (remove_first-Distinct key s.virtual_keys_down h)))
            (λ _. h))
    where
      is_absent : (b : Bool) → negate b ≡ true → b ≡ false
      is_absent true e = cc
      is_absent false e = refl

      sent :
          (new : KeyState) (t : ServerState)
          → KeysDistinct t
          → KeysDistinct
              (if is_virtual_key key then record_effect (virtual_key_state key new) t else t)
      sent new t k = if_rule KeysDistinct (is_virtual_key key) (λ _. k) (λ _. k)

  toggle_in_place-Distinct :
      (i : ℕ) (key : Key) (s : ServerState)
      → KeysDistinct s
      → KeysDistinct (toggle_in_place platform now i key s)
  unfolding toggle_in_place toggle_virtual_key
  toggle_in_place-Distinct i key s h =
      set_virtual_key_state-Distinct (λ nested. nested) (λ t k. k) key not
        (record s { insert_in_send_buffer_at = some (i + 1) }) h

  flush_loop-Distinct :
      (toggles i : ℕ) (events : KeySequence) (s : ServerState)
      → KeysDistinct s
      → KeysDistinct (flush_loop platform now toggles i events s).state
  unfolding flush_loop
  flush_loop-Distinct toggles i [] s h = h
  flush_loop-Distinct zero i (event ∷ events) s h =
      flush_event_rule DistinctKeys quiet clear platform now (λ f. KeysDistinct f.state) i event _ _
        s (λ count succeeded t k. k) (flush_loop-Distinct zero (i + 1) events)
        (flush_loop-Distinct zero (i + 1) events) h
  flush_loop-Distinct (suc fewer) i (event ∷ events) s h =
      flush_event_rule DistinctKeys quiet clear platform now (λ f. KeysDistinct f.state) i event _ _
        s (λ count succeeded t k. k) (flush_loop-Distinct (suc fewer) (i + 1) events)
        (λ t k.
          flush_loop-Distinct fewer (i + 1)
            (drop (i + 1) (toggle_in_place platform now i event.key t).send_buffer)
            (toggle_in_place platform now i event.key t) (toggle_in_place-Distinct i event.key t k))
        h

  flush-Distinct : (s : ServerState) → KeysDistinct s → KeysDistinct (flush platform now s)
  unfolding flush_send_buffer
  flush-Distinct s h =
      if_rule (λ (r : Bool × ServerState). KeysDistinct r.1) s.sending_key (λ _. h)
        (λ _.
          flush_loop-Distinct 9 0 s.send_buffer
            (record s { sending_key = true; flush_scheduled_at = none }) h)

-- What the server is asked to do.
pub data Request : Type 0 where
  input : KeyEvent → ℤ → Request
  flush_due validate_state next_key_info_request : Request
  configuration : Option MultiStage → Request
  directives : List String → Request
  active_contexts : List ℕ → Request
  virtual_key : Key → KeyState → Request
  inject_input inject_output : KeySequence → Request
  devices : List DeviceDesc → Request

abbrev serve : Platform → ℕ → Request → ServerState → ServerState
serve platform now (input event device_index) s =
    translate_input platform now (flush platform now) event device_index s
serve platform now flush_due s = flush platform now s
serve platform now validate_state s = on_validate_state_message platform now s
serve platform now next_key_info_request s = on_request_next_key_info_message s
serve platform now (configuration stage) s = on_configuration_message platform now stage s
serve platform now (directives names) s = on_directives_message names s
serve platform now (active_contexts indices) s = on_active_contexts_message platform now indices s
serve platform now (virtual_key key state) s =
    on_set_virtual_key_state_message platform now key state s
serve platform now (inject_input sequence) s = on_inject_input_message platform now sequence s
serve platform now (inject_output sequence) s = on_inject_output_message platform now sequence s
serve platform now (devices descs) s = set_device_descs now (flush platform now) descs s

-- Requests at their times, one after another.
abbrev pub serve_all : Platform → List (ℕ × Request) → ServerState → ServerState
serve_all platform [] s = s
serve_all platform ((now, request) ∷ requests) s =
    serve_all platform requests (serve platform now request s)

module _ (platform : Platform) (now : ℕ) where
  input-Distinct :
      (event : KeyEvent) (device_index : ℤ) (s : ServerState)
      → KeysDistinct s
      → KeysDistinct (translate_input platform now (flush platform now) event device_index s)
  input-Distinct =
      translate_input-Holds DistinctKeys quiet clear now (flush platform now)
        (flush-Distinct platform now) platform

  inject-Distinct :
      (sequence : KeySequence) (s : ServerState)
      → KeysDistinct s
      → KeysDistinct (foldl (inject platform now) s sequence)
  inject-Distinct [] s h = h
  inject-Distinct (event ∷ sequence) s h = inject-Distinct sequence (inject platform now s event) (
      if_rule KeysDistinct
        ((state_eq event.state up || state_eq event.state down) && is_device_key event.key)
        (λ _. input-Distinct event no_device_index s h) (λ _. h))

  reset-Distinct :
      (stage : Option MultiStage) (s : ServerState)
      → KeysDistinct s
      → KeysDistinct (on_configuration_message platform now stage s)
  unfolding on_configuration_message
  reset-Distinct none s h = h
  reset-Distinct (some stage) s h =
      reset_configuration-Holds DistinctKeys quiet clear now (flush platform now)
        (flush-Distinct platform now) (some stage) s h

  serve-Distinct :
      (request : Request) (s : ServerState)
      → KeysDistinct s
      → KeysDistinct (serve platform now request s)
  unfolding on_validate_state_message on_request_next_key_info_message on_directives_message
      on_active_contexts_message on_set_virtual_key_state_message on_inject_input_message
      on_inject_output_message set_device_descs
  serve-Distinct (input event device_index) s h = input-Distinct event device_index s h
  serve-Distinct flush_due s h = flush-Distinct platform now s h
  serve-Distinct validate_state s h = h
  serve-Distinct next_key_info_request s h = release_all_keys-Holds DistinctKeys quiet clear s h
  serve-Distinct (configuration stage) s h = reset-Distinct stage s h
  serve-Distinct (directives names) s h = if_rule KeysDistinct (any _ names) (λ _. h) (λ _. h)
  serve-Distinct (active_contexts indices) s h =
      set_active_contexts-Holds DistinctKeys quiet clear now (flush platform now)
        (flush-Distinct platform now) indices s h
  serve-Distinct (virtual_key key state) s h =
      flush_unless-Holds DistinctKeys quiet clear now (flush platform now)
        (flush-Distinct platform now) _
        (set_virtual_key_state-Distinct platform now (flush platform now)
          (flush-Distinct platform now) key state s h)
  serve-Distinct (inject_input sequence) s h =
      schedule_flush-Holds DistinctKeys quiet clear now 0 _ (inject-Distinct sequence s h)
  serve-Distinct (inject_output sequence) s h =
      schedule_flush-Holds DistinctKeys quiet clear now 0 _
        (send_key_sequence-Holds DistinctKeys quiet clear sequence s h)
  serve-Distinct (devices descs) s h =
      evaluate_device_filters-Holds DistinctKeys quiet clear now (flush platform now)
        (flush-Distinct platform now) (record s { device_descs = descs }) h

-- However inputs, flushes, the messages of the client and changes of the devices follow one another, no
-- virtual key stands twice among those that are down, if none does at first.
pub virtual_keys_down-Distinct :
    (platform : Platform) (requests : List (ℕ × Request)) (s : ServerState)
    → Distinct s.virtual_keys_down
    → Distinct (serve_all platform requests s).virtual_keys_down
virtual_keys_down-Distinct platform [] s h = h
virtual_keys_down-Distinct platform ((now, request) ∷ requests) s h =
    virtual_keys_down-Distinct platform requests (serve platform now request s)
      (serve-Distinct platform now request s h)
