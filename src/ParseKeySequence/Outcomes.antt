-- ===== src/ParseKeySequence/Outcomes.antt =====
-- src/config/ParseKeySequence.cpp: the loop of `parse` as a whole.
use keymapper.Prelude.{
  ℕ, suc, ◌-◌, ◌≡◌, refl, ◌∙◌, ap, sym, ◌<◌, ◌≤◌, Bool, true, false, ◌||◌, List, [], ◌∷◌, none,
  some, arith, if◌then◌else◌, negate, length, is_empty, get_last?, drop_last, if_rule, option_rule,
  zero, Option-cases, inl, inr,
}
use keymapper.Key.{Key}
use keymapper.StringIteration.{
  Text, single_quote, double_quote, comment_mark, skip, skip_space, try_read_timeout,
}
use keymapper.StringIteration.Lengths.{skip_space_le, skip_char_lt, try_read_timeout_lt}
use keymapper.ParseKeySequence.Parser.{Parser, Result, flush_key_buffer, ok}
use keymapper.ParseKeySequence.Steps.{
  Environment, Step, continue, end_modified_group, finished, is_in_group, leave_modified_group,
  parse_groups, parse_key, parse_timeout_or_key, parse_token, read_key, skip_quote,
}
use keymapper.ParseKeySequence.Keeps.{
  IsConsistent, flush_key_buffer-IsConsistent, release_pressed_keys-IsConsistent,
  sync_after_not_timeout-IsConsistent,
}
use keymapper.ParseKeySequence.Rounds.{
  Ensures, Kept, Round, add_key_to_buffer-IsConsistent, bind_rule, parse_not-Round,
  parse_timeout-Round, read_key-Ensures,
}
use keymapper.ParseKeySequence.SymbolRounds.{
  begin_modified_group-Round, begin_together_group-Round, end_together_group-Round,
  parse_command-Round, parse_no_might_match-Round, parse_output_on_release-Round,
  parse_string-Round,
}
use keymapper.ParseKeySequence.Parse.{parse_loop}

get_last?-none : {A : Type 0} (xs : List A) → get_last? xs ≡ none → length xs ≡ 0
get_last?-none [] h = refl
get_last?-none (x ∷ []) h = cc
get_last?-none (x ∷ y ∷ xs) h = absurd (omega (arith, get_last?-none (y ∷ xs) h))

length-drop_last : {A : Type 0} (xs : List A) → length (drop_last xs) ≡ length xs - 1
length-drop_last [] = omega arith
length-drop_last (x ∷ []) = omega arith
length-drop_last (x ∷ y ∷ xs) = omega (arith, length-drop_last (y ∷ xs))

leave_modified_group-IsConsistent :
    (is_input : Bool) (keep : ℕ) (s : Parser)
    → IsConsistent is_input s
    → IsConsistent is_input (leave_modified_group is_input keep s)
unfolding leave_modified_group
leave_modified_group-IsConsistent is_input keep s h =
    let left : IsConsistent is_input _ = record {
      groups =
          length-drop_last s.keys_pressed_before_modifier_group ∙ ap (λ (n : ℕ). n - 1) h.groups;
      states =
          (release_pressed_keys-IsConsistent is_input keep _
            (flush_key_buffer-IsConsistent is_input true s h)).states;
    } in
    if_rule (IsConsistent is_input) is_input
      (λ _. sync_after_not_timeout-IsConsistent is_input _ left) (λ _. left)

module _ (e : Environment) (n : ℕ) where
  end_modified_group-Round :
      (it : Text) (s : Parser)
      → length it < n
      → IsConsistent e.is_input s
      → Round e n (end_modified_group e it s)
  unfolding end_modified_group
  end_modified_group-Round it s l h =
      if_rule (Round e n) (negate (is_in_group s)) (λ _. (cc, cc))
        (λ open_group.
          option_rule (Round e n) (get_last? s.keys_pressed_before_modifier_group)
            (λ missing. absurd (
              in_no_group
                (sym h.groups ∙ get_last?-none s.keys_pressed_before_modifier_group missing)
                open_group))
            (λ keep _. (l, leave_modified_group-IsConsistent e.is_input keep s h)))
    where
      in_no_group : s.in_modified_group ≡ 0 → negate (is_in_group s) ≡ false → ⊥
      in_no_group p q = ground (arith, p, q)

  parse_key-Round :
      (it : Text) (s : Parser)
      → length it ≤ n
      → IsConsistent e.is_input s
      → Round e n (parse_key e it s)
  unfolding parse_key
  parse_key-Round it s l h =
      if_rule (Round e n) (is_empty it) (λ _. flushed)
        (λ _.
          bind_rule (λ (r : Key × Text). length r.1 < length it) (Kept e.is_input n)
            (read_key e 0 it) _ (read_key-Ensures e n 0 it)
            (λ r shorter. (omega arith, add_key_to_buffer-IsConsistent e.is_input r.0 _ flushed)))
    where
      flushed : IsConsistent e.is_input (
          if negate s.in_together_group || is_empty it
          then flush_key_buffer e.is_input true s
          else s)
      flushed =
          if_rule (IsConsistent e.is_input) (negate s.in_together_group || is_empty it)
            (λ _. flush_key_buffer-IsConsistent e.is_input true s h) (λ _. h)

  parse_timeout_or_key-Round :
      (it : Text) (s : Parser)
      → length it ≤ n
      → IsConsistent e.is_input s
      → Round e n (parse_timeout_or_key e it s)
  unfolding parse_timeout_or_key
  parse_timeout_or_key-Round it s l h =
      option_rule (Round e n) (try_read_timeout it) (λ _. parse_key-Round it s l h)
        (λ found read.
          parse_timeout-Round e n found.0 false found.1 s
            (omega (arith, try_read_timeout_lt it found.0 found.1 read)) h)

  -- The text behind a symbol is shorter.
  behind :
      (it : Text) (c : ℕ) (rest : Text)
      → length it ≤ n
      → skip it (c ∷ []) ≡ some rest
      → length rest < n
  behind it c rest l found = omega (arith, skip_char_lt it c rest found)

  parse_groups-Round :
      (it : Text) (s : Parser)
      → length it ≤ n
      → IsConsistent e.is_input s
      → Round e n (parse_groups e it s)
  unfolding parse_groups
  parse_groups-Round it s l h =
      option_rule (Round e n) (skip it (b'(' ∷ []))
        (λ _.
          option_rule (Round e n) (skip it (b')' ∷ []))
            (λ _.
              option_rule (Round e n) (skip it (b'{' ∷ []))
                (λ _.
                  option_rule (Round e n) (skip it (b'}' ∷ []))
                    (λ _.
                      option_rule (Round e n) (skip it (comment_mark ∷ []))
                        (λ _. parse_timeout_or_key-Round it s l h)
                        (λ _ _. flush_key_buffer-IsConsistent e.is_input true s h))
                    (λ rest p. end_modified_group-Round rest s (behind it b'}' rest l p) h))
                (λ rest p. begin_modified_group-Round e n rest s (behind it b'{' rest l p) h))
            (λ rest p. end_together_group-Round e n rest s (behind it b')' rest l p) h))
        (λ rest p. begin_together_group-Round e n rest s (behind it b'(' rest l p) h)

  skip_quote_lt :
      (it : Text) (quote : ℕ) (rest : Text)
      → skip_quote it ≡ some (quote, rest)
      → length rest < length it
  unfolding skip_quote
  skip_quote_lt it quote rest h = elim (Option-cases (skip it (single_quote ∷ []))) [
    | inl no_single ↦ elim (Option-cases (skip it (double_quote ∷ []))) [
      | inl no_double ↦ ground (arith, h, no_single, no_double)
      | inr (r, p) ↦ ground (arith, h, no_single, p, skip_char_lt it double_quote r p)
    ]
    | inr (r, p) ↦ ground (arith, h, p, skip_char_lt it single_quote r p)
  ]

  parse_token-Round :
      (it : Text) (s : Parser)
      → length it ≤ n
      → IsConsistent e.is_input s
      → Round e n (parse_token e it s)
  unfolding parse_token
  parse_token-Round it s l h =
      option_rule (Round e n) (skip it (b'!' ∷ []))
        (λ _.
          option_rule (Round e n) (skip_quote it)
            (λ _.
              option_rule (Round e n) (skip it (b'$' ∷ []))
                (λ _.
                  option_rule (Round e n) (skip it (b'^' ∷ []))
                    (λ _.
                      option_rule (Round e n) (skip it (b'?' ∷ []))
                        (λ _. parse_groups-Round it s l h)
                        (λ rest p.
                          parse_no_might_match-Round e n rest s (behind it b'?' rest l p) h))
                    (λ rest p.
                      parse_output_on_release-Round e n rest s (behind it b'^' rest l p) h))
                (λ rest p. parse_command-Round e n rest s (behind it b'$' rest l p) h))
            (λ found p.
              parse_string-Round e n found.0 found.1 s
                (omega (arith, skip_quote_lt it found.0 found.1 p)) h))
        (λ rest p. parse_not-Round e n rest s (behind it b'!' rest l p) h)

next_rule :
    (is_input : Bool) (n : ℕ) (f : Text → Parser → Result Parser)
    → ((rest : Text) (s : Parser)
        → length rest < n
        → IsConsistent is_input s
        → Ensures (IsConsistent is_input) (f rest s))
    → (step : Step) → Kept is_input n step
    → Ensures (IsConsistent is_input) (elim step [ continue rest s ↦ f rest s | finished s ↦ ok s ])
next_rule is_input n f ih (continue rest s) k = ih rest s k.0 k.1
next_rule is_input n f ih (finished s) k = k

pub parse_loop-Ensures :
    (fuel : ℕ) (e : Environment) (it : Text) (s : Parser)
    → length it < fuel
    → IsConsistent e.is_input s
    → Ensures (IsConsistent e.is_input) (parse_loop fuel e it s)
unfolding parse_loop
parse_loop-Ensures zero e it s l h = elim l [ ]
parse_loop-Ensures (suc fuel) e it s l h =
    bind_rule (Kept e.is_input fuel) (IsConsistent e.is_input) (parse_token e (skip_space it).1 s) _
      (parse_token-Round e fuel (skip_space it).1 s (omega (arith, skip_space_le it)) h)
      (next_rule e.is_input fuel (parse_loop fuel e)
        (λ rest s' l' h'. parse_loop-Ensures fuel e rest s' l' h'))
