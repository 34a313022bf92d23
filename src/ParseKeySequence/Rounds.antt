-- ===== src/ParseKeySequence/Rounds.antt =====
-- src/config/ParseKeySequence.cpp: what one round of the loop of `parse` keeps, and that it shortens
-- the text.
use keymapper.Prelude.{
  ℕ, ◌+◌, ◌-◌, ◌≡◌, ◌≢◌, refl, ◌∙◌, ap, sym, ◌<◌, Bool, true, false, ◌&&◌, ◌||◌, List, [], ◌∷◌,
  some, arith, ◌==◌, ltb, if◌then◌else◌, negate, length, is_empty, if_rule, option_rule, subst,
}
use keymapper.Key
use keymapper.Key.{Key, is_virtual_key}
use keymapper.KeyEvent.{up, not, up_async, no_might_match, output_on_release}
use keymapper.StringIteration.{Text, read_ident, try_read_timeout}
use keymapper.StringIteration.Lengths.{read_ident_lt, try_read_timeout_lt}
use keymapper.ParseKeySequence.Parser.{
  Called, Error, Parser, Result, add_key_to_buffer, add_key_to_sequence, add_timeout_event,
  ends_with_async_up, err, flush_key_buffer, is_pressed, ok, out_of_fuel, remove_from_pressed_keys,
  result, returned, threw, undefined, ◌>>=◌,
}
use keymapper.ParseKeySequence.Strings.{Typed, get_key_by_character, key_of_calls}
use keymapper.ParseKeySequence.Steps.{
  Environment, Step, add_not_key, continue, finished, is_in_group, parse_not, parse_timeout,
  read_key, skip_parentheses, symbol_error, then_continue,
}
use keymapper.ParseKeySequence.Keeps.{
  AllAllowed, IsConsistent, add_key-IsConsistent, allowed, flush_key_buffer-IsConsistent,
  merge_timeout-AllAllowed, not_state, not_to_up-AllAllowed, remove_from_pressed_keys-IsConsistent,
  set_last_state-AllAllowed, timeout_state-allowed, up_state,
}

-- An exception that the code throws.
abbrev pub IsThrown : Error → Type 0
IsThrown error = (error ≢ undefined) × (error ≢ out_of_fuel)

abbrev pub Ensures {ℓ} : {A : Type ℓ} → (A → Type 0) → Result A → Type 0
Ensures P (ok a) = P a
Ensures P (err error) = IsThrown error

pub bind_rule {ℓ κ} :
    {A : Type ℓ} {B : Type κ} (P : A → Type 0) (Q : B → Type 0) (m : Result A) (f : A → Result B)
    → Ensures P m
    → ((a : A) → P a → Ensures Q (f a))
    → Ensures Q (m >>= f)
bind_rule P Q (ok a) f h g = g a h
bind_rule P Q (err error) f h g = h

pub result_rule : {A : Type 0} (c : Called A) → Ensures (λ _. Unit {0}) (result c)
result_rule (returned a) = tt
result_rule (threw message) = (cc, cc)

symbol_error-IsThrown : (at : ℕ) → IsThrown (symbol_error at)
unfolding symbol_error
symbol_error-IsThrown at =
    if_rule IsThrown (ltb at 32 || ltb 127 at) (λ _. (cc, cc)) (λ _. (cc, cc))

-- A round leaves a text shorter than `n`.
abbrev pub Kept : Bool → ℕ → Step → Type 0
Kept is_input n (continue rest s) = (length rest < n) × IsConsistent is_input s
Kept is_input n (finished s) = IsConsistent is_input s

module _ (e : Environment) (n : ℕ) where
  abbrev pub Round : Result Step → Type 0
  Round = Ensures (Kept e.is_input n)

  pub then_continue_rule :
      (it : Text) (r : Result Parser)
      → length it < n
      → Ensures (IsConsistent e.is_input) r
      → Round (then_continue it r)
  then_continue_rule it (ok s) l h = (l, h)
  then_continue_rule it (err error) l h = h

  add_timeout_event-Ensures :
      (timeout : ℕ) (is_not cancel_on_up : Bool) (s : Parser)
      → IsConsistent e.is_input s
      → Ensures
          (IsConsistent e.is_input)
          (add_timeout_event e.is_input timeout is_not cancel_on_up s)
  unfolding add_timeout_event
  add_timeout_event-Ensures timeout is_not cancel_on_up s h =
      let flushed = flush_key_buffer-IsConsistent e.is_input true s h in
      if_rule (Ensures (IsConsistent e.is_input))
        (e.is_input && is_empty (flush_key_buffer e.is_input true s).sequence) (λ _. (cc, cc))
        (λ _.
          if_rule (Ensures (IsConsistent e.is_input)) (negate e.is_input && is_not) (λ _. (cc, cc))
            (λ _. record {
              groups = flushed.groups;
              states =
                  merge_timeout-AllAllowed e.is_input _ timeout _
                    (timeout_state-allowed e.is_input is_not cancel_on_up)
                    (if_rule (AllAllowed e.is_input) e.is_input
                      (λ _. not_to_up-AllAllowed e.is_input _ flushed.states)
                      (λ _. flushed.states));
            }))

  pub read_key-Ensures :
      (previous : ℕ) (text : Text)
      → Ensures (λ (r : Key × Text). length r.1 < length text) (read_key e previous text)
  unfolding read_key
  read_key-Ensures previous text =
      if_rule (Ensures (λ (r : Key × Text). length r.1 < length text))
        (is_empty (read_ident text).0) (λ _. symbol_error-IsThrown _)
        (λ named.
          bind_rule (λ _. Unit {0}) (λ (r : Key × Text). length r.1 < length text)
            (result (e.get_key_by_name (read_ident text).0)) _
            (result_rule (e.get_key_by_name (read_ident text).0))
            (λ key _.
              if_rule (Ensures (λ (r : Key × Text). length r.1 < length text)) (key == Key.none)
                (λ _. (cc, cc)) (λ _. read_ident_lt text named)))

  add_not_key-IsConsistent :
      (key : Key) (s : Parser)
      → IsConsistent e.is_input s
      → IsConsistent e.is_input (add_not_key e.is_input key s)
  unfolding add_not_key
  add_not_key-IsConsistent key s h =
      if_rule (IsConsistent e.is_input) (e.is_input && ends_with_async_up synced.sequence key)
        (λ _. record {
          groups = sync.groups;
          states = set_last_state-AllAllowed e.is_input up _ (up_state e.is_input) sync.states;
        })
        (λ _.
          if_rule (IsConsistent e.is_input)
            (e.is_input && (is_pressed synced.sequence key || is_in_group s))
            (λ _. add_key-IsConsistent e.is_input key up 0 synced (up_state e.is_input) sync)
            (λ _. add_key-IsConsistent e.is_input key not 0 synced (not_state e.is_input) sync))
    where
      removed : Bool × Parser
      removed =
          remove_from_pressed_keys key
            (flush_key_buffer e.is_input (e.is_input || is_virtual_key key) s)

      synced : Parser
      synced =
          if removed.0 && e.is_input
          then add_key_to_sequence key up_async 0 removed.1
          else removed.1

      kept : IsConsistent e.is_input removed.1
      kept =
          remove_from_pressed_keys-IsConsistent e.is_input key _
            (flush_key_buffer-IsConsistent e.is_input _ s h)

      async_allowed : (b : Bool) → removed.0 && b ≡ true → allowed b up_async ≡ true
      async_allowed true p = refl
      async_allowed false p = ground arith

      sync : IsConsistent e.is_input synced
      sync =
          if_rule (IsConsistent e.is_input) (removed.0 && e.is_input)
            (λ p.
              add_key-IsConsistent e.is_input key up_async 0 removed.1 (async_allowed e.is_input p)
                kept)
            (λ _. kept)

  pub parse_timeout-Round :
      (timeout : ℕ) (is_not : Bool) (it : Text) (s : Parser)
      → length it < n
      → IsConsistent e.is_input s
      → Round (parse_timeout e timeout is_not it s)
  unfolding parse_timeout
  parse_timeout-Round timeout is_not it s l h =
      if_rule Round s.in_together_group (λ _. (cc, cc))
        (λ _.
          then_continue_rule it _ l (add_timeout_event-Ensures timeout is_not (is_in_group s) s h))

  pub parse_not-Round :
      (it : Text) (s : Parser)
      → length it < n
      → IsConsistent e.is_input s
      → Round (parse_not e it s)
  unfolding parse_not
  parse_not-Round it s l h =
      option_rule Round (try_read_timeout it)
        (λ _.
          if_rule Round s.in_together_group (λ _. (cc, cc))
            (λ _.
              bind_rule (λ (r : Key × Text). length r.1 < length it) (Kept e.is_input n)
                (read_key e b'!' it) _ (read_key-Ensures b'!' it)
                (λ r shorter. (omega arith, add_not_key-IsConsistent r.0 s h))))
        (λ found read.
          parse_timeout-Round found.0 true found.1 s
            (omega (arith, try_read_timeout_lt it found.0 found.1 read)) h)

key_of_calls-Ensures :
    (result : Key) (calls : List Typed) → Ensures (λ _. Unit {0}) (key_of_calls result calls)
unfolding key_of_calls
key_of_calls-Ensures result [] = tt
key_of_calls-Ensures result (c ∷ calls) =
    if_rule (Ensures (λ _. Unit {0})) (result == Key.none) (λ _. key_of_calls-Ensures c.key calls)
      (λ _. (cc, cc))

pub get_key_by_character-Ensures :
    (type_string : Text → Called (List Typed)) (string : Text)
    → Ensures (λ _. Unit {0}) (get_key_by_character type_string string)
unfolding get_key_by_character
get_key_by_character-Ensures type_string string =
    bind_rule (λ _. Unit {0}) (λ _. Unit {0}) (result (type_string string)) _
      (result_rule (type_string string)) (λ calls _. key_of_calls-Ensures Key.none calls)

pub skip_parentheses_lt :
    (level : ℕ) (text rest : Text)
    → skip_parentheses level text ≡ some rest
    → length rest < length text
unfolding skip_parentheses
skip_parentheses_lt level [] rest h = cc
skip_parentheses_lt level (c ∷ text) rest h =
    let level' = if c == b'(' then level + 1 else if c == b')' then level - 1 else level in
    ground (arith, skip_parentheses_lt level' text rest)

-- What the invariant reads is the same.
pub IsConsistent-same :
    (is_input : Bool) {s t : Parser}
    → s.in_modified_group ≡ t.in_modified_group
    → s.keys_pressed_before_modifier_group ≡ t.keys_pressed_before_modifier_group
    → s.sequence ≡ t.sequence
    → IsConsistent is_input s
    → IsConsistent is_input t
IsConsistent-same is_input p q r h = record {
  groups = ap length (sym q) ∙ h.groups ∙ p;
  states = subst (AllAllowed is_input) r h.states;
}

pub add_key_to_buffer-IsConsistent :
    (is_input : Bool) (key : Key) (s : Parser)
    → IsConsistent is_input s
    → IsConsistent is_input (add_key_to_buffer key s)
unfolding add_key_to_buffer
add_key_to_buffer-IsConsistent is_input key s h = record { groups = h.groups; states = h.states }

pub output_only : (is_input : Bool) → is_input ≡ false → allowed is_input output_on_release ≡ true
output_only true h = cc
output_only false h = refl

pub input_only :
    (is_input : Bool) → negate is_input ≡ false → allowed is_input no_might_match ≡ true
input_only true h = refl
input_only false h = cc
