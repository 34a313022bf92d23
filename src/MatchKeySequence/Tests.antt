-- ===== src/MatchKeySequence/Tests.antt =====
-- Runs of the matcher, and the theorems about it at concrete inputs.
use keymapper.Prelude.{[], ◌≡◌, refl, ◌≢◌, inl, inr, false, some, ◌∷◌, any}
use keymapper.Key.{Key}
use keymapper.KeyEvent.{up, down, not, up_async, KeySequence, key_event}
use keymapper.MatchKeySequence.{match, might_match, match_key_sequence, match_loop, initial}
use keymapper.MatchKeySequence.Progress.{match_key_sequence-total}
use keymapper.MatchKeySequence.NotKeys.{not_key-ne-match}
use keymapper.MatchKeySequence.Groups.{group, match_key_sequence-group}
use keymapper.MatchKeySequence.Plain.{IsPlain, plain_match, match_key_sequence-plain}

abbrev key_a : Key
key_a = 30

abbrev key_b : Key
key_b = 48

-- `A B`.
abbrev a_then_b : KeySequence
a_then_b = key_event key_a down ∷ key_event key_a up_async ∷ key_event key_b down ∷ []

abbrev typed : KeySequence
typed = key_event key_a down ∷ key_event key_a up ∷ key_event key_b down ∷ []

abbrev reversed : KeySequence
reversed = key_event key_b down ∷ key_event key_a down ∷ []

typed_in_order : (match_key_sequence a_then_b typed false).result ≡ match
unfolding match_key_sequence
typed_in_order = refl

typed_together : (match_key_sequence (group key_a key_b) reversed false).result ≡ match
unfolding match_key_sequence
typed_together = refl

typed_beginning :
    (match_key_sequence a_then_b (key_event key_a down ∷ []) false).result ≡ might_match
unfolding match_key_sequence
typed_beginning = refl

match_key_sequence-total_example :
    match_loop 7 false (initial a_then_b typed) ≡ some (match_key_sequence a_then_b typed false)
match_key_sequence-total_example =
    match_key_sequence-total a_then_b typed false ((λ e. cc), ((λ e. cc), ((λ e. cc), tt)))

not_key-ne-match_example :
    (match_key_sequence (key_event key_a not ∷ key_event key_b down ∷ []) typed false).result
    ≢ match
unfolding any
not_key-ne-match_example =
    not_key-ne-match key_a (key_event key_b down ∷ []) typed false (λ e. cc) refl refl

match_key_sequence-plain_example :
    (match_key_sequence typed (key_event key_a down ∷ key_event key_a up ∷ []) false).result
    ≡ plain_match typed (key_event key_a down ∷ key_event key_a up ∷ [])
match_key_sequence-plain_example =
    match_key_sequence-plain typed (key_event key_a down ∷ key_event key_a up ∷ []) false
      (plain_a_down, (plain_a_up, (plain_b_down, tt))) (plain_a_down, (plain_a_up, tt))
  where
    plain_a_down : IsPlain (key_event key_a down)
    plain_a_down = record {
      pressed_or_released = inr refl;
      has_key = refl;
      not_any = refl;
      not_timeout = refl;
    }

    plain_a_up : IsPlain (key_event key_a up)
    plain_a_up = record {
      pressed_or_released = inl refl;
      has_key = refl;
      not_any = refl;
      not_timeout = refl;
    }

    plain_b_down : IsPlain (key_event key_b down)
    plain_b_down = record {
      pressed_or_released = inr refl;
      has_key = refl;
      not_any = refl;
      not_timeout = refl;
    }

match_key_sequence-group_example :
    ((match_key_sequence
        (group key_a key_b)
        (key_event key_a down ∷ key_event key_b down ∷ [])
        false).result
      ≡ match)
    × ((match_key_sequence
          (group key_a key_b)
          (key_event key_b down ∷ key_event key_a down ∷ [])
          false).result
        ≡ match)
match_key_sequence-group_example =
    match_key_sequence-group key_a key_b false ((λ e. cc), ((λ e. cc), (λ e. cc)))
      ((λ e. cc), ((λ e. cc), (λ e. cc))) (λ e. cc)
