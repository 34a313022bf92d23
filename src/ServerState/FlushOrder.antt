-- ===== src/ServerState/FlushOrder.antt =====
-- src/server/ServerState.cpp: what a flush sends of keys up to a timeout.
use mathlib.Core.List.{append_assoc, append-nil}
use keymapper.Prelude.{
  ℕ, zero, suc, ◌+◌, ◌≡◌, refl, ap, sym, ◌∙◌, Bool, true, false, ◌&&◌, List, [], ◌∷◌, ◌++◌, some,
  none, map, if◌then◌else◌, ◌==◌, length, All, arith,
}
use keymapper.Key
use keymapper.Key.{Key, is_mouse_wheel, is_action_key, is_virtual_key}
use keymapper.KeyEvent.{down, KeyEvent, KeySequence, state_eq}
use keymapper.ServerState.State.{
  Effect, Platform, ServerState, flush_scheduled, flushed, record_effect, schedule_flush, sent_key,
}
use keymapper.ServerState.Flush.{
  Flushed, drop, finish_flush, flush, flush_event, flush_loop, flush_send_buffer,
}

-- An event that a flush passes to the platform.
abbrev pub IsSent : KeyEvent → Type 0
IsSent event =
    ((is_mouse_wheel event.key && state_eq event.state down) ≡ false)
    × (is_action_key event.key ≡ false)
    × (is_virtual_key event.key ≡ false)
    × ((event.key == Key.timeout) ≡ false)

abbrev pub Accepts : Platform → Type 0
Accepts platform =
    (effects : List Effect) (event : KeyEvent) → platform.on_send_key effects event ≡ true

-- The events are sent in addition.
abbrev with_sent : KeySequence → ServerState → ServerState
with_sent events s = record s { effects = s.effects ++ map sent_key events }

module _ (platform : Platform) (now : ℕ) (accepts : Accepts platform) where
  flush_event-sent :
      (i : ℕ) (event : KeyEvent) (go_on toggled : ServerState → Flushed) (s : ServerState)
      → IsSent event
      → flush_event platform now i event go_on toggled s ≡ go_on (record_effect (sent_key event) s)
  unfolding flush_event
  flush_event-sent i event go_on toggled s h = rw (h.0, h.1, h.2, h.3, accepts s.effects event) refl

  with_sent-cons :
      (event : KeyEvent) (events : KeySequence) (s : ServerState)
      → with_sent events (record_effect (sent_key event) s) ≡ with_sent (event ∷ events) s
  with_sent-cons event events s =
      ap (λ (effects : List Effect). record s { effects = effects })
        (append_assoc s.effects (sent_key event ∷ []) (map sent_key events))

  same_loop :
      (toggles : ℕ) (events : KeySequence) {i j : ℕ} {s t : ServerState}
      → i ≡ j
      → s ≡ t
      → flush_loop platform now toggles i events s ≡ flush_loop platform now toggles j events t
  same_loop toggles events p q = cc

  flush_loop-sent :
      (events : KeySequence) (toggles i : ℕ) (rest : KeySequence) (s : ServerState)
      → All IsSent events
      → flush_loop platform now toggles i (events ++ rest) s
        ≡ flush_loop platform now toggles (i + length events) rest (with_sent events s)
  unfolding flush_loop
  flush_loop-sent [] toggles i rest s h =
      same_loop toggles rest (omega arith) (
        ap (λ (effects : List Effect). record s { effects = effects }) (sym (append-nil s.effects)))
  flush_loop-sent (event ∷ events) zero i rest s h =
      flush_event-sent i event _ _ s h.0
      ∙ flush_loop-sent events zero (i + 1) rest (record_effect (sent_key event) s) h.1
      ∙ same_loop zero rest (omega arith) (with_sent-cons event events s)
  flush_loop-sent (event ∷ events) (suc fewer) i rest s h =
      flush_event-sent i event _ _ s h.0
      ∙ flush_loop-sent events (suc fewer) (i + 1) rest (record_effect (sent_key event) s) h.1
      ∙ same_loop (suc fewer) rest (omega arith) (with_sent-cons event events s)

  -- The loop stops behind a timeout.
  flush_loop-timeout :
      (toggles i : ℕ) (event : KeyEvent) (rest : KeySequence) (s : ServerState)
      → event.key ≡ Key.timeout
      → flush_loop platform now toggles i (event ∷ rest) s
        ≡ record { count = i + 1; succeeded = true; state = schedule_flush now event.value s }
  unfolding flush_loop flush_event is_mouse_wheel is_action_key is_virtual_key
  flush_loop-timeout zero i event rest s e = ground (arith, e)
  flush_loop-timeout (suc fewer) i event rest s e = ground (arith, e)

  drop-timeout :
      (events rest : KeySequence) (event : KeyEvent)
      → drop (suc (length events)) (events ++ event ∷ rest) ≡ rest
  drop-timeout [] rest event = refl
  drop-timeout (x ∷ events) rest event = drop-timeout events rest event

  -- The flush where none is under way.
  flush_send_buffer-idle :
      (b : Bool) (x y : Bool × ServerState) → b ≡ false → (if b then x else y) ≡ y
  flush_send_buffer-idle true x y e = cc
  flush_send_buffer-idle false x y e = refl

  flush_send_buffer-loop :
      (events rest : KeySequence) (event : KeyEvent) (s : ServerState)
      → s.sending_key ≡ false
      → s.send_buffer ≡ events ++ event ∷ rest
      → All IsSent events
      → event.key ≡ Key.timeout
      → flush_send_buffer platform now s
        ≡ finish_flush platform now (record {
          count = 0 + length events + 1;
          succeeded = true;
          state =
              schedule_flush now event.value
                (with_sent events (record s { sending_key = true; flush_scheduled_at = none }));
        })
  unfolding flush_send_buffer
  flush_send_buffer-loop events rest event s idle buffer h e =
      let start = record s { sending_key = true; flush_scheduled_at = none } in
      flush_send_buffer-idle s.sending_key (true, s) _ idle
      ∙ ap (finish_flush platform now) (
          ap (λ (waiting : KeySequence). flush_loop platform now 9 0 waiting start) buffer
          ∙ flush_loop-sent events 9 0 (event ∷ rest) start h
          ∙ flush_loop-timeout 9 (0 + length events) event rest (with_sent events start) e)

  -- A flush sends the events in front of a timeout to the platform, in their order, schedules the next
  -- flush for the end of the timeout, and leaves what is behind the timeout in the send buffer. No
  -- flush is under way, the events are no presses of wheels, actions or virtual keys, and the platform
  -- accepts what is sent.
  pub flush_send_buffer-timeout :
      (events rest : KeySequence) (event : KeyEvent) (s : ServerState)
      → s.sending_key ≡ false
      → s.send_buffer ≡ events ++ event ∷ rest
      → All IsSent events
      → event.key ≡ Key.timeout
      → ((flush platform now s).send_buffer ≡ rest)
        × ((flush platform now s).effects
            ≡ (s.effects ++ map sent_key events) ++ flush_scheduled event.value ∷ flushed ∷ [])
        × ((flush platform now s).flush_scheduled_at ≡ some (now + event.value))
  unfolding schedule_flush
  flush_send_buffer-timeout events rest event s idle buffer h e =
      let loop = flush_send_buffer-loop events rest event s idle buffer h e in
      (
        ap (λ (r : Bool × ServerState). r.1.send_buffer) loop
            ∙ ap (λ (waiting : KeySequence). drop (0 + length events + 1) waiting) buffer
            ∙ ap (λ (n : ℕ). drop n (events ++ event ∷ rest)) (one_more (length events))
            ∙ drop-timeout events rest event,
        ap (λ (r : Bool × ServerState). r.1.effects) loop
            ∙ append_assoc (s.effects ++ map sent_key events) (flush_scheduled event.value ∷ [])
                (flushed ∷ []),
        ap (λ (r : Bool × ServerState). r.1.flush_scheduled_at) loop,
      )
    where
      one_more : (n : ℕ) → 0 + n + 1 ≡ suc n
      one_more n = omega arith
