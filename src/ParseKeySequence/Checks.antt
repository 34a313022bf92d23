-- ===== src/ParseKeySequence/Checks.antt =====
-- src/config/ParseKeySequence.cpp: the checks at the end of `parse`.
use keymapper.Prelude.{
  suc, ◌≡◌, refl, ◌∙◌, ap, ◌⊎◌, inl, inr, Bool, true, false, ◌&&◌, ◌||◌, [], ◌∷◌, arith, ◌==◌,
  negate, length, drop_last, any, Bool-cases, if_rule,
}
use keymapper.Key
use keymapper.KeyEvent.{KeyEvent, KeySequence}
use keymapper.StringIteration.{Text}
use keymapper.ParseKeySequence.Parser.{
  Parser, Result, check_context_active_usage, err, has_key_down, has_key_up, has_virtual_key,
  initial, ok, ◌>>=◌,
}
use keymapper.ParseKeySequence.Steps.{Environment, is_in_group}
use keymapper.ParseKeySequence.Parse.{check_sequence, close_sequence, finish, parse, parse_loop}

abbrev pub has_context_active : KeySequence → Bool
has_context_active = any (λ (event : KeyEvent). event.key == Key.context_active)

bind_ok :
    {A B : Type 0} (m : Result A) (f : A → Result B) (b : B)
    → (m >>= f) ≡ ok b
    → (a : A) × (f a ≡ ok b)
bind_ok (ok a) f b h = (a, h)
bind_ok (err error) f b h = cc

finish_ok :
    (is_input : Bool) (s : Parser) (sequence : KeySequence)
    → finish is_input s ≡ ok sequence
    → check_sequence is_input s.is_no_might_match (close_sequence is_input s) ≡ ok sequence
unfolding finish
finish_ok is_input s sequence =
    if_rule Checked s.in_together_group (λ _ h. cc)
      (λ _. if_rule Checked (is_in_group s) (λ _ h. cc) (λ _ h. h))
  where
    Checked : Result KeySequence → Type 0
    Checked r =
        r ≡ ok sequence
        → check_sequence is_input s.is_no_might_match (close_sequence is_input s) ≡ ok sequence

-- The sequence that the checks are passed.
parse_ok :
    (e : Environment) (str : Text) (sequence : KeySequence)
    → parse e str ≡ ok sequence
    → (s : Parser) × (check_sequence e.is_input s.is_no_might_match (close_sequence e.is_input s)
        ≡ ok sequence)
unfolding parse
parse_ok e str sequence h =
    let (s, p) =
      bind_ok (parse_loop (suc (length str)) e str initial) (finish e.is_input) sequence h in
    (s, finish_ok e.is_input s sequence p)

length-drop_last_two : (xs : KeySequence) → (length xs == 2) ≡ true → length (drop_last xs) ≡ 1
length-drop_last_two [] h = absurd (ground (arith, h))
length-drop_last_two (x ∷ []) h = cc
length-drop_last_two (x ∷ y ∷ []) h = refl
length-drop_last_two (x ∷ y ∷ z ∷ xs) h = absurd (ground (arith, h))

-- Without the key the sequence stays; with it, it was the key alone in an input.
context_active_cases :
    (is_input : Bool) (xs sequence : KeySequence)
    → check_context_active_usage is_input xs ≡ ok sequence
    → ((has_context_active xs ≡ false) × (sequence ≡ xs))
      ⊎ ((is_input ≡ true) × (length sequence ≡ 1))
unfolding check_context_active_usage
context_active_cases is_input xs sequence h = elim (Bool-cases (has_context_active xs)) [
  | inl found ↦ elim (Bool-cases is_input) [
    | inl input ↦ elim (Bool-cases (length xs == 2)) [
      | inl two ↦ inr (input, ground (arith, h, found, input, two, length-drop_last_two xs two))
      | inr other ↦ absurd (ground (arith, h, found, input, other))
    ]
    | inr output ↦ absurd (ground (arith, h, found, output))
  ]
  | inr missing ↦ inl (missing, ground (arith, h, missing))
]

check_sequence_cases :
    (is_input nmm : Bool) (xs sequence : KeySequence)
    → check_sequence is_input nmm xs ≡ ok sequence
    → ((is_input && (negate (has_key_down xs) && negate (has_key_up xs))) ≡ false)
      × (check_context_active_usage is_input xs ≡ ok sequence)
unfolding check_sequence
check_sequence_cases is_input nmm xs sequence h =
    elim (Bool-cases (is_input && (negate (has_key_down xs) && negate (has_key_up xs)))) [
      | inl no_key ↦ absurd (ground (arith, h, no_key))
      | inr some_key ↦ elim (Bool-cases (nmm && has_virtual_key xs)) [
        | inl virtual ↦ absurd (ground (arith, h, some_key, virtual))
        | inr allowed_keys ↦ (some_key, ground (arith, h, some_key, allowed_keys))
      ]
    ]

some_key_cases : (down up : Bool) → (negate down && negate up) ≡ false → (down || up) ≡ true
some_key_cases true up h = refl
some_key_cases false true h = refl
some_key_cases false false h = cc

-- The sequence of a parsed input has a press or a release of a key, or it is a single event.
pub parse-has_key :
    (e : Environment) (str : Text) (sequence : KeySequence)
    → e.is_input ≡ true
    → parse e str ≡ ok sequence
    → ((has_key_down sequence || has_key_up sequence) ≡ true) ⊎ (length sequence ≡ 1)
parse-has_key e str sequence input h =
    let (s, checked) = parse_ok e str sequence h in
    let closed = close_sequence e.is_input s in
    let (some_key, usage) = check_sequence_cases e.is_input _ closed sequence checked in
    elim (context_active_cases e.is_input closed sequence usage) [
      | inl (_, same) ↦ inl (
          rw same (
            some_key_cases (has_key_down closed) (has_key_up closed)
              (ground (arith, some_key, input))))
      | inr (_, single) ↦ inr single
    ]

-- Where the key ContextActive is in the sequence of a parsed text, the text is an input, and the
-- sequence is a single event.
pub parse-context_active :
    (e : Environment) (str : Text) (sequence : KeySequence)
    → parse e str ≡ ok sequence
    → has_context_active sequence ≡ true
    → (e.is_input ≡ true) × (length sequence ≡ 1)
parse-context_active e str sequence h active =
    let (s, checked) = parse_ok e str sequence h in
    let closed = close_sequence e.is_input s in
    let (_, usage) = check_sequence_cases e.is_input _ closed sequence checked in
    elim (context_active_cases e.is_input closed sequence usage) [
      | inl (missing, same) ↦ absurd (contradiction (ap has_context_active same ∙ missing))
      | inr alone ↦ alone
    ]
  where
    contradiction : has_context_active sequence ≡ false → ⊥
    contradiction m = cc
