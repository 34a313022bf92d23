-- ===== src/ParseKeySequence/WellFormed.antt =====
-- src/config/ParseKeySequence.cpp: what holds of the sequence that a text is translated to, and of
-- the exception that is thrown for another text.
use keymapper.Prelude.{
  suc, ◌≡◌, ◌≢◌, refl, Bool, true, false, ◌&&◌, [], ◌∷◌, arith, ◌==◌, negate, length, is_empty,
  get_last?, drop_last, if_rule, option_rule, any, subst,
}
use keymapper.Key
use keymapper.KeyEvent.{KeyState, KeyEvent, KeySequence, up, not, up_async, state_eq}
use keymapper.StringIteration.{Text}
use keymapper.ParseKeySequence.Parser.{
  Error, Parser, Result, all_pressed_at_once, check_context_active_usage, convert_final_not_to_up,
  err, has_key_down, has_key_up, has_virtual_key, initial, ok, out_of_fuel, release_pressed_keys,
  remove_all_from_end, undefined,
}
use keymapper.ParseKeySequence.Steps.{Environment, is_in_group}
use keymapper.ParseKeySequence.Parse.{check_sequence, close_sequence, finish, parse, parse_loop}
use keymapper.ParseKeySequence.Keeps.{
  AllAllowed, IsConsistent, release_pressed_keys-IsConsistent, set_last_state-AllAllowed, up_state,
}
use keymapper.ParseKeySequence.Rounds.{Ensures, IsThrown, bind_rule}
use keymapper.ParseKeySequence.Outcomes.{parse_loop-Ensures}

remove_all_from_end-AllAllowed :
    (is_input : Bool) (state : KeyState) (xs : KeySequence)
    → AllAllowed is_input xs
    → AllAllowed is_input (remove_all_from_end state xs)
unfolding remove_all_from_end
remove_all_from_end-AllAllowed is_input state [] h = tt
remove_all_from_end-AllAllowed is_input state (x ∷ xs) h =
    if_rule (AllAllowed is_input)
      (is_empty (remove_all_from_end state xs) && state_eq x.state state) (λ _. tt)
      (λ _. (h.0, remove_all_from_end-AllAllowed is_input state xs h.1))

drop_last-AllAllowed :
    (is_input : Bool) (xs : KeySequence)
    → AllAllowed is_input xs
    → AllAllowed is_input (drop_last xs)
drop_last-AllAllowed is_input [] h = tt
drop_last-AllAllowed is_input (x ∷ []) h = tt
drop_last-AllAllowed is_input (x ∷ y ∷ xs) h = (h.0, drop_last-AllAllowed is_input (y ∷ xs) h.1)

convert_final_not_to_up-AllAllowed :
    (is_input : Bool) (xs : KeySequence)
    → AllAllowed is_input xs
    → AllAllowed is_input (convert_final_not_to_up xs)
unfolding convert_final_not_to_up
convert_final_not_to_up-AllAllowed is_input xs h =
    option_rule (AllAllowed is_input) (get_last? xs) (λ _. h)
      (λ event _.
        if_rule (AllAllowed is_input)
          (state_eq event.state not && negate (event.key == Key.timeout))
          (λ _. set_last_state-AllAllowed is_input up xs (up_state is_input) h) (λ _. h))

close_sequence-AllAllowed :
    (is_input : Bool) (s : Parser)
    → IsConsistent is_input s
    → AllAllowed is_input (close_sequence is_input s)
unfolding close_sequence
close_sequence-AllAllowed true s h = convert_final_not_to_up-AllAllowed true _ (
    if_rule (AllAllowed true) s.is_no_might_match
      (λ _. remove_all_from_end-AllAllowed true up_async s.sequence h.states) (λ _. h.states))
close_sequence-AllAllowed false s h =
    let released = (release_pressed_keys-IsConsistent false 0 s h).states in
    if_rule (AllAllowed false)
      (negate s.has_modifier && all_pressed_at_once (release_pressed_keys false 0 s).sequence)
      (λ _. remove_all_from_end-AllAllowed false up _ released) (λ _. released)

check_context_active_usage-Ensures :
    (is_input : Bool) (xs : KeySequence)
    → AllAllowed is_input xs
    → Ensures (AllAllowed is_input) (check_context_active_usage is_input xs)
unfolding check_context_active_usage
check_context_active_usage-Ensures is_input xs h =
    let E = Ensures (AllAllowed is_input) in
    if_rule E (any (λ (event : KeyEvent). event.key == Key.context_active) xs)
      (λ _.
        if_rule E (negate is_input) (λ _. (cc, cc))
          (λ _.
            if_rule E (negate (length xs == 2)) (λ _. (cc, cc))
              (λ _. drop_last-AllAllowed is_input xs h)))
      (λ _. h)

finish-Ensures :
    (is_input : Bool) (s : Parser)
    → IsConsistent is_input s
    → Ensures (AllAllowed is_input) (finish is_input s)
unfolding finish check_sequence
finish-Ensures is_input s h =
    let closed = close_sequence is_input s in
    let E = Ensures (AllAllowed is_input) in
    if_rule E s.in_together_group (λ _. (cc, cc))
      (λ _.
        if_rule E (is_in_group s) (λ _. (cc, cc))
          (λ _.
            if_rule E (is_input && (negate (has_key_down closed) && negate (has_key_up closed)))
              (λ _. (cc, cc))
              (λ _.
                if_rule E (s.is_no_might_match && has_virtual_key closed) (λ _. (cc, cc))
                  (λ _.
                    check_context_active_usage-Ensures is_input closed
                      (close_sequence-AllAllowed is_input s h)))))

parse-Ensures : (e : Environment) (str : Text) → Ensures (AllAllowed e.is_input) (parse e str)
unfolding parse
parse-Ensures e str =
    bind_rule (IsConsistent e.is_input) (AllAllowed e.is_input)
      (parse_loop (suc (length str)) e str initial) _
      (parse_loop-Ensures (suc (length str)) e str initial (omega arith)
        (record { groups = refl; states = tt }))
      (λ s h. finish-Ensures e.is_input s h)

ok_rule : {A : Type 0} (P : A → Type 0) (r : Result A) (a : A) → Ensures P r → r ≡ ok a → P a
ok_rule P r a h p = subst (Ensures P) p h

err_rule :
    {A : Type 0} (P : A → Type 0) (r : Result A) (error : Error)
    → Ensures P r
    → r ≡ err error
    → IsThrown error
err_rule P r error h p = subst (Ensures P) p h

-- For every text the loop ends: `parse` yields a sequence or throws one of its exceptions. It neither
-- runs out of the fuel of one round for each byte of the text and one more, nor reads the back of an
-- empty vector.
pub parse-IsThrown :
    (e : Environment) (str : Text) (error : Error)
    → parse e str ≡ err error
    → (error ≢ undefined) × (error ≢ out_of_fuel)
parse-IsThrown e str error =
    err_rule (AllAllowed e.is_input) (parse e str) error (parse-Ensures e str)

-- The events of a parsed input have the states that are meant for inputs, Up, Down, Not, UpAsync,
-- DownAsync, NoMightMatch and the not-timeout that is cancelled on up and down, and those of a parsed
-- output the states that are meant for outputs, Up, Down, Not and OutputOnRelease.
pub parse-AllAllowed :
    (e : Environment) (str : Text) (sequence : KeySequence)
    → parse e str ≡ ok sequence
    → AllAllowed e.is_input sequence
parse-AllAllowed e str sequence =
    ok_rule (AllAllowed e.is_input) (parse e str) sequence (parse-Ensures e str)
