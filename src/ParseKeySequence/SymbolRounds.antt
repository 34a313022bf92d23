-- ===== src/ParseKeySequence/SymbolRounds.antt =====
-- src/config/ParseKeySequence.cpp: the rounds of the loop of `parse` at each symbol.
use keymapper.Prelude.{
  ℕ, refl, ap, ◌<◌, Bool, true, false, ◌||◌, [], ◌∷◌, arith, ◌==◌, negate, length, is_empty,
  if_rule, option_rule, length-append, or_false_parts,
}
use keymapper.Key
use keymapper.Key.{Key, is_virtual_key}
use keymapper.KeyEvent.{down, down_async, no_might_match, output_on_release}
use keymapper.StringIteration.{Text, skip, skip_until, before_last}
use keymapper.StringIteration.Lengths.{skip_char_lt, skip_until_lt}
use keymapper.ParseKeySequence.Parser.{Parser, add_key_to_buffer, flush_key_buffer, result}
use keymapper.ParseKeySequence.Strings.{get_key_by_character}
use keymapper.ParseKeySequence.Steps.{
  Environment, add_character, add_command, before_modified_group, begin_modified_group,
  begin_together_group, end_together_group, is_in_group, parse_command, parse_no_might_match,
  parse_output_on_release, parse_string, skip_parentheses, type_string_now,
}
use keymapper.ParseKeySequence.Keeps.{
  AllAllowed, IsConsistent, add_key-IsConsistent, allowed, append-AllAllowed, down_state,
  flush_key_buffer-IsConsistent, presses-AllAllowed,
}
use keymapper.ParseKeySequence.KeepsTyping.{add_string_typing-IsConsistent}
use keymapper.ParseKeySequence.Rounds.{
  Ensures, IsConsistent-same, Round, add_key_to_buffer-IsConsistent, bind_rule,
  get_key_by_character-Ensures, input_only, output_only, result_rule, skip_parentheses_lt,
  then_continue_rule,
}

module _ (e : Environment) (n : ℕ) where
  add_character-Ensures :
      (string : Text) (s : Parser)
      → IsConsistent e.is_input s
      → Ensures (IsConsistent e.is_input) (add_character e string s)
  unfolding add_character
  add_character-Ensures string s h =
      bind_rule (λ _. Unit {0}) (IsConsistent e.is_input)
        (get_key_by_character e.type_string string) _
        (get_key_by_character-Ensures e.type_string string)
        (λ key _. if_rule (IsConsistent e.is_input) (key == Key.none) (λ _. h) (λ _. added key))
    where
      added : (key : Key) → IsConsistent e.is_input (add_key_to_buffer key s)
      added key = add_key_to_buffer-IsConsistent e.is_input key s h

  type_string_now-Ensures :
      (string : Text) (s : Parser)
      → IsConsistent e.is_input s
      → Ensures (IsConsistent e.is_input) (type_string_now e string s)
  unfolding type_string_now
  type_string_now-Ensures string s h =
      bind_rule (λ _. Unit {0}) (IsConsistent e.is_input) (result (e.type_string string)) _
        (result_rule (e.type_string string))
        (λ calls _.
          add_string_typing-IsConsistent e.is_input (is_in_group s) (length string) calls _
            (flush_key_buffer-IsConsistent e.is_input true s h))

  pub parse_string-Round :
      (quote : ℕ) (begin : Text) (s : Parser)
      → length begin < n
      → IsConsistent e.is_input s
      → Round e n (parse_string e quote begin s)
  unfolding parse_string
  parse_string-Round quote begin s l h =
      option_rule (Round e n) (skip_until begin (quote ∷ [])) (λ _. (cc, cc))
        (λ it found.
          then_continue_rule e n it _ (omega (arith, skip_until_lt begin quote it found)) (
            if_rule (Ensures (IsConsistent e.is_input))
              (s.in_together_group || before_modified_group it)
              (λ _. add_character-Ensures (before_last begin it) s h)
              (λ _. type_string_now-Ensures (before_last begin it) s h)))

  add_command-Ensures :
      (command : Text) (s : Parser)
      → IsConsistent e.is_input s
      → Ensures (IsConsistent e.is_input) (add_command e command s)
  unfolding add_command
  add_command-Ensures command s h =
      option_rule (Ensures (IsConsistent e.is_input)) e.add_terminal_command (λ _. h)
        (λ add _.
          bind_rule (λ _. Unit {0}) (IsConsistent e.is_input) (result (add s.commands command)) _
            (result_rule (add s.commands command))
            (λ key _.
              IsConsistent-same e.is_input refl refl refl
                (add_key-IsConsistent e.is_input key down 0 s (down_state e.is_input) h)))

  pub parse_command-Round :
      (it : Text) (s : Parser)
      → length it < n
      → IsConsistent e.is_input s
      → Round e n (parse_command e it s)
  unfolding parse_command
  parse_command-Round it s l h =
      if_rule (Round e n) (e.is_input || (s.in_together_group || is_in_group s)) (λ _. (cc, cc))
        (λ _.
          option_rule (Round e n) (skip it (b'(' ∷ [])) (λ _. (cc, cc))
            (λ begin opened.
              option_rule (Round e n) (skip_parentheses 1 begin) (λ _. (cc, cc))
                (λ rest closed.
                  then_continue_rule e n rest _
                    (omega (
                      arith,
                      skip_char_lt it b'(' begin opened,
                      skip_parentheses_lt 1 begin rest closed,
                    ))
                    (add_command-Ensures (before_last begin rest) _
                      (flush_key_buffer-IsConsistent e.is_input true s h)))))

  pub parse_output_on_release-Round :
      (it : Text) (s : Parser)
      → length it < n
      → IsConsistent e.is_input s
      → Round e n (parse_output_on_release e it s)
  unfolding parse_output_on_release
  parse_output_on_release-Round it s l h =
      if_rule (Round e n)
        (e.is_input || (s.output_on_release || (s.in_together_group || is_in_group s)))
        (λ _. (cc, cc))
        (λ allowed_here. (
          l,
          IsConsistent-same e.is_input refl refl refl (
              add_key-IsConsistent e.is_input Key.none output_on_release 0 _
                (output_only e.is_input (or_false_parts e.is_input _ allowed_here).0)
                (flush_key_buffer-IsConsistent e.is_input true s h)),
        ))

  pub parse_no_might_match-Round :
      (it : Text) (s : Parser)
      → length it < n
      → IsConsistent e.is_input s
      → Round e n (parse_no_might_match e it s)
  unfolding parse_no_might_match
  parse_no_might_match-Round it s l h =
      if_rule (Round e n)
        (negate e.is_input
          || (s.output_on_release
              || (negate (is_empty s.sequence)
                  || (negate (is_empty s.key_buffer) || s.in_together_group))))
        (λ _. (cc, cc))
        (λ allowed_here. (
          l,
          IsConsistent-same e.is_input refl refl refl (
              add_key-IsConsistent e.is_input Key.none no_might_match 0 s
                (input_only e.is_input (or_false_parts (negate e.is_input) _ allowed_here).0) h),
        ))

  pub begin_together_group-Round :
      (it : Text) (s : Parser)
      → length it < n
      → IsConsistent e.is_input s
      → Round e n (begin_together_group e it s)
  unfolding begin_together_group
  begin_together_group-Round it s l h =
      if_rule (Round e n) s.in_together_group (λ _. (cc, cc))
        (λ _. (
          l,
          IsConsistent-same e.is_input refl refl refl
              (flush_key_buffer-IsConsistent e.is_input true s h),
        ))

  pub end_together_group-Round :
      (it : Text) (s : Parser)
      → length it < n
      → IsConsistent e.is_input s
      → Round e n (end_together_group e it s)
  unfolding end_together_group
  end_together_group-Round it s l h =
      if_rule (Round e n) (negate s.in_together_group) (λ _. (cc, cc))
        (λ _. (
          l,
          record {
            groups = h.groups;
            states =
                if_rule (AllAllowed e.is_input) e.is_input
                  (λ input. append-AllAllowed e.is_input s.sequence _ h.states (
                    presses-AllAllowed e.is_input down_async s.key_buffer
                      (ap (λ (b : Bool). allowed b down_async) input)))
                  (λ _. h.states);
          },
        ))

  pub begin_modified_group-Round :
      (it : Text) (s : Parser)
      → length it < n
      → IsConsistent e.is_input s
      → Round e n (begin_modified_group e it s)
  unfolding begin_modified_group
  begin_modified_group-Round it s l h =
      if_rule (Round e n) s.in_together_group (λ _. (cc, cc))
        (λ _.
          if_rule (Round e n) (is_empty s.key_buffer) (λ _. (cc, cc))
            (λ _.
              if_rule (Round e n) (is_empty (flush_key_buffer e.is_input false s).pressed_keys)
                (λ _. (cc, cc))
                (λ _. (
                  l,
                  record {
                    groups = omega (
                      arith,
                      h.groups,
                      length-append s.keys_pressed_before_modifier_group
                          (length s.pressed_keys ∷ []),
                    );
                    states = (flush_key_buffer-IsConsistent e.is_input false s h).states;
                  },
                ))))
