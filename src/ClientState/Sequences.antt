-- ===== src/ClientState/Sequences.antt =====
-- src/client/ClientState.cpp: the sequences that the client injects.
use keymapper.Prelude.{
  ◌≡◌, refl, ◌∙◌, ap, sym, Bool, true, false, ◌&&◌, List, [], ◌∷◌, ◌++◌, map, negate, contains,
  remove_first, arith, if_rule, ==_self, Distinct, push-Distinct, remove_first-Distinct,
  contains-push_or, contains-remove,
}
use keymapper.Key.{Key}
use keymapper.KeyEvent.{up, down, KeyEvent, KeySequence, key_event, state_eq}
use keymapper.KeyEvent.Held.{is_held, is_held_after}
use keymapper.ClientState.{track_key, track_keys, ensure_all_keys_up}

track_key-Distinct :
    (keys : List Key) (event : KeyEvent) → Distinct keys → Distinct (track_key keys event)
track_key-Distinct keys event d =
    if_rule Distinct (state_eq event.state down && negate (contains event.key keys))
      (λ new. push-Distinct event.key keys (absent (state_eq event.state down) _ new) d)
      (λ _.
        if_rule Distinct (state_eq event.state up && contains event.key keys)
          (λ _. remove_first-Distinct event.key keys d) (λ _. d))
  where
    absent : (a b : Bool) → (a && negate b) ≡ true → b ≡ false
    absent a b h = ground arith

contains-track_key :
    (key : Key) (keys : List Key) (event : KeyEvent)
    → Distinct keys
    → contains key (track_key keys event) ≡ is_held key (contains key keys) event
contains-track_key key keys event d =
    ground (arith, contains-push_or key event.key keys, contains-remove key event.key keys d)

is_held_after-track_keys :
    (key : Key) (keys : List Key) (sequence : KeySequence)
    → Distinct keys
    → is_held_after key (contains key keys) sequence ≡ contains key (track_keys keys sequence)
unfolding track_keys
is_held_after-track_keys key keys [] d = refl
is_held_after-track_keys key keys (event ∷ sequence) d =
    ap (λ (held : Bool). is_held_after key held sequence)
      (sym (contains-track_key key keys event d))
    ∙ is_held_after-track_keys key (track_key keys event) sequence (track_key-Distinct keys event d)

track_keys-Distinct :
    (keys : List Key) (sequence : KeySequence) → Distinct keys → Distinct (track_keys keys sequence)
unfolding track_keys
track_keys-Distinct keys [] d = d
track_keys-Distinct keys (event ∷ sequence) d =
    track_keys-Distinct (track_key keys event) sequence (track_key-Distinct keys event d)

track_keys-append :
    (keys : List Key) (first second : KeySequence)
    → track_keys keys (first ++ second) ≡ track_keys (track_keys keys first) second
unfolding track_keys
track_keys-append keys [] second = refl
track_keys-append keys (event ∷ first) second =
    track_keys-append (track_key keys event) first second

track_key-up : (key : Key) (keys : List Key) → track_key (key ∷ keys) (key_event key up) ≡ keys
unfolding contains remove_first
track_key-up key keys = ground (arith, ==_self key)

track_keys-ups :
    (keys : List Key) → track_keys keys (map (λ (key : Key). key_event key up) keys) ≡ []
unfolding track_keys
track_keys-ups [] = refl
track_keys-ups (key ∷ keys) =
    ap (λ (k : List Key). track_keys k (map (λ (x : Key). key_event x up) keys))
      (track_key-up key keys)
    ∙ track_keys-ups keys

-- Behind a sequence that the client injects, with the keys of any sequence that are still down released
-- at its end, no key is down: the last press of each key is followed by a release of it.
pub ensure_all_keys_up-released :
    (sequence : KeySequence) (key : Key)
    → is_held_after key false (ensure_all_keys_up sequence) ≡ false
unfolding ensure_all_keys_up contains
ensure_all_keys_up-released sequence key =
    is_held_after-track_keys key [] (ensure_all_keys_up sequence) tt
    ∙ ap (contains key) (
        track_keys-append [] sequence (map (λ (k : Key). key_event k up) (track_keys [] sequence))
        ∙ track_keys-ups (track_keys [] sequence))
