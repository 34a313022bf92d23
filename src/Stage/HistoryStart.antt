-- ===== src/Stage/HistoryStart.antt =====
-- src/runtime/Stage.cpp: the front of the history after `clean_up_history`.
use keymapper.Prelude.{
  [], ℕ, zero, suc, ◌≤◌, ◌<◌, ◌≡◌, ◌⊎◌, inl, inr, Bool, true, false, ◌||◌, List, ◌∷◌, arith, negate,
  if_rule, remove_first, length, ◌↔◌, refl, subst,
}
use keymapper.Key.{is_common_modifier}
use keymapper.KeyEvent.{up, history_timing, state_eq, event_eq, KeyEvent, KeySequence}
use keymapper.Stage.State.{Context, Stage}
use keymapper.Stage.Sequences.{contains_event}
use keymapper.Stage.History.{history_might_match, clean_up, clean_up_history}

-- A history that is empty, or starts with an event that is neither a release nor a timing, and whose key
-- is not released in it, or with which a mapping might still match.
abbrev pub IsUseful : List Context → List ℕ → KeySequence → Type 0
IsUseful contexts active [] = Unit
IsUseful contexts active (event ∷ rest) =
    ((state_eq event.state history_timing || state_eq event.state up) ≡ false)
    × ((contains_event (event ∷ rest) (record event { state = up }) ≡ false)
        ⊎ (history_might_match contexts active (event ∷ rest) ≡ true))

length-remove_first :
    (p : KeyEvent → Bool) (events : KeySequence) → length (remove_first p events) ≤ length events
unfolding remove_first
length-remove_first p [] = omega arith
length-remove_first p (event ∷ events) = ground (arith, length-remove_first p events)

negated : (b : Bool) → negate b ≡ true → b ≡ false
negated b h = ground arith

clean_up-IsUseful :
    (fuel : ℕ) (contexts : List Context) (active : List ℕ) (history : KeySequence)
    → length history < fuel
    → IsUseful contexts active (clean_up fuel contexts active history)
unfolding clean_up
clean_up-IsUseful zero contexts active history h = ground arith
clean_up-IsUseful (suc fuel) contexts active [] h = tt
clean_up-IsUseful (suc fuel) contexts active (event ∷ rest) h =
    let up_event : KeyEvent = record event { state = up } in
    let Useful : KeySequence → Type 0 = IsUseful contexts active in
    let erased = clean_up-IsUseful fuel contexts active rest (omega arith) in
    if_rule Useful (state_eq event.state history_timing || state_eq event.state up) (λ _. erased)
      λ pressed.
        if_rule Useful (negate (contains_event (event ∷ rest) up_event))
          (λ held. (pressed, inl (negated (contains_event (event ∷ rest) up_event) held)))
          λ _.
            if_rule Useful (history_might_match contexts active (event ∷ rest))
              (λ might. (pressed, inr might))
              λ _.
                if_rule Useful (is_common_modifier event.key) (λ _. erased)
                  λ _.
                    clean_up-IsUseful fuel contexts active _
                      (omega (arith, length-remove_first (λ e. event_eq e up_event) rest))

clean_up-kept :
    (fuel : ℕ) (contexts : List Context) (active : List ℕ) (history : KeySequence)
    → IsUseful contexts active history
    → clean_up fuel contexts active history ≡ history
unfolding clean_up
clean_up-kept zero contexts active history h = refl
clean_up-kept (suc fuel) contexts active [] h = refl
clean_up-kept (suc fuel) contexts active (event ∷ rest) (pressed, inl held) =
    ground (arith, pressed, held)
clean_up-kept (suc fuel) contexts active (event ∷ rest) (pressed, inr might) =
    ground (arith, pressed, might)

-- After `clean_up_history` the history is empty, or starts with an event that is neither a release nor
-- a timing, and whose key is not released in the history, or with which an input that looks back might
-- still match. A history is left as it is exactly if it is such a one before.
pub clean_up_history-IsUseful :
    (s : Stage)
    → IsUseful s.contexts s.active_contexts (clean_up_history s).history
      × (((clean_up_history s).history ≡ s.history)
          ↔ IsUseful s.contexts s.active_contexts s.history)
unfolding clean_up_history
clean_up_history-IsUseful s =
    let useful =
      clean_up-IsUseful (suc (length s.history)) s.contexts s.active_contexts s.history
        (omega arith) in
    (
      useful,
      (
        λ same. subst (IsUseful s.contexts s.active_contexts) same useful,
        clean_up-kept (suc (length s.history)) s.contexts s.active_contexts s.history,
      ),
    )
