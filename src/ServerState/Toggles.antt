-- ===== src/ServerState/Toggles.antt =====
-- src/server/ServerState.cpp: how many virtual keys a flush toggles.
use keymapper.Prelude.{
  ℕ, zero, suc, ◌+◌, ◌≤◌, ◌≡◌, refl, Bool, true, false, ◌&&◌, List, [], ◌∷◌, none, some,
  if◌then◌else◌, negate, ◌==◌, push, contains, remove_first, if_rule, arith, count_if,
  count_if-append,
}
use keymapper.Key.{Key, is_virtual_key}
use keymapper.KeyEvent.{KeyState, up, down, KeySequence, key_event}
use keymapper.Stage.State.{any_device_index}
use keymapper.ServerState.State.{
  Effect, Platform, ServerState, flushed, record_effect, virtual_key_state,
}
use keymapper.ServerState.Input.{set_virtual_key_state, toggle_virtual_key}
use keymapper.ServerState.Flush.{drop, flush_loop, flush_send_buffer, toggle_in_place}
use keymapper.ServerState.Keeps.{flush_event_rule, is_virtual_key_state, translate_input-Holds}

-- How many states of virtual keys the client was told.
abbrev pub told : List Effect → ℕ
told = count_if is_virtual_key_state

abbrev AtMost : ℕ → List Key → List Effect → Type 0
AtMost n keys effects = told effects ≤ n

told-push :
    (effects : List Effect) (effect : Effect)
    → told (push effects effect) ≡ told effects + (if is_virtual_key_state effect then 1 else 0)
unfolding count_if
told-push effects effect = omega (arith, count_if-append is_virtual_key_state effects (effect ∷ []))

told-quiet :
    (n : ℕ) (keys : List Key) (effects : List Effect) (effect : Effect)
    → is_virtual_key_state effect ≡ false
    → AtMost n keys effects
    → AtMost n keys (push effects effect)
told-quiet n keys effects effect q h = ground (arith, q, h, told-push effects effect)

told-clear :
    (n : ℕ) (keys : List Key) (effects : List Effect) → AtMost n keys effects → AtMost n [] effects
told-clear n keys effects h = h

abbrev ToldAtMost : ℕ → ServerState → Type 0
ToldAtMost n s = told s.effects ≤ n

module _ (platform : Platform) (now : ℕ) where
  send_state-told :
      (n : ℕ) (key : Key) (state : KeyState) (s : ServerState)
      → ToldAtMost n s
      → ToldAtMost
          (n + 1)
          (if is_virtual_key key then record_effect (virtual_key_state key state) s else s)
  send_state-told n key state s h =
      if_rule (ToldAtMost (n + 1)) (is_virtual_key key)
        (λ _. omega (arith, h, told-push s.effects (virtual_key_state key state)))
        (λ _. omega (arith, h))

  toggle_virtual_key-told :
      (n : ℕ) (key : Key) (s : ServerState)
      → ToldAtMost n s
      → ToldAtMost (n + 1) (toggle_virtual_key platform now (λ nested. nested) key s)
  unfolding toggle_virtual_key set_virtual_key_state
  toggle_virtual_key-told n key s h =
      if_rule (ToldAtMost (n + 1)) (negate (contains key s.virtual_keys_down) && true)
        (λ _. send_state-told n key down _ (
          translate_input-Holds (AtMost n) (told-quiet n) (told-clear n) now (λ nested. nested)
            (λ t k. k) platform (key_event key down) any_device_index
            (record s { virtual_keys_down = push s.virtual_keys_down key }) h))
        (λ _.
          if_rule (ToldAtMost (n + 1)) (contains key s.virtual_keys_down && true)
            (λ _. send_state-told n key up _ (
              translate_input-Holds (AtMost n) (told-quiet n) (told-clear n) now (λ nested. nested)
                (λ t k. k) platform (key_event key up) any_device_index
                (record s {
                  virtual_keys_down = remove_first (λ (k : Key). k == key) s.virtual_keys_down;
                })
                h))
            (λ _. omega (arith, h)))

  toggle_in_place-told :
      (n i : ℕ) (key : Key) (s : ServerState)
      → ToldAtMost n s
      → ToldAtMost (n + 1) (toggle_in_place platform now i key s)
  unfolding toggle_in_place
  toggle_in_place-told n i key s h =
      toggle_virtual_key-told n key (record s { insert_in_send_buffer_at = some (i + 1) }) h

  flush_loop-told :
      (toggles i : ℕ) (events : KeySequence) (s : ServerState) (n m : ℕ)
      → n + toggles ≤ m
      → ToldAtMost n s
      → ToldAtMost m (flush_loop platform now toggles i events s).state
  unfolding flush_loop
  flush_loop-told toggles i [] s n m l h = omega (arith, h)
  flush_loop-told zero i (event ∷ events) s n m l h =
      flush_event_rule (AtMost n) (told-quiet n) (told-clear n) platform now
        (λ f. ToldAtMost m f.state) i event _ _ s (λ count succeeded t k. omega (arith, k))
        (λ t k. flush_loop-told zero (i + 1) events t n m l k)
        (λ t k. flush_loop-told zero (i + 1) events t n m l k) h
  flush_loop-told (suc fewer) i (event ∷ events) s n m l h =
      flush_event_rule (AtMost n) (told-quiet n) (told-clear n) platform now
        (λ f. ToldAtMost m f.state) i event _ _ s (λ count succeeded t k. omega (arith, k))
        (λ t k. flush_loop-told (suc fewer) (i + 1) events t n m l k)
        (λ t k.
          let s' = toggle_in_place platform now i event.key t in
          flush_loop-told fewer (i + 1) (drop (i + 1) s'.send_buffer) s' (n + 1) m
            (omega (arith, l)) (toggle_in_place-told n i event.key t k))
        h

-- A flush of the send buffer tells the client of nine states of virtual keys at most, whatever virtual
-- keys the stages put out for those that it toggles.
pub flush_send_buffer-told :
    (platform : Platform) (now : ℕ) (s : ServerState)
    → told (flush_send_buffer platform now s).1.effects ≤ told s.effects + 9
unfolding flush_send_buffer
flush_send_buffer-told platform now s =
    if_rule (λ (r : Bool × ServerState). told r.1.effects ≤ told s.effects + 9) s.sending_key
      (λ _. omega arith)
      (λ _. told-quiet (told s.effects + 9) [] _ flushed refl (
        flush_loop-told platform now 9 0 s.send_buffer
          (record s { sending_key = true; flush_scheduled_at = none }) (told s.effects)
          (told s.effects + 9) (omega arith) (omega arith)))
