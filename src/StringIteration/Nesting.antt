-- ===== src/StringIteration/Nesting.antt =====
-- src/config/string_iteration.h: how `skip_arglist` and `skip_terminal_command` match brackets.
use keymapper.Prelude.{
  ℕ, zero, suc, ◌-◌, ◌≡◌, refl, ◌∙◌, ap, sym, ◌<◌, ◌≤◌, true, false, List, [], ◌∷◌, Option, none,
  some, ◌==◌, if◌then◌else◌, length, arith, Bool-cases, inl, inr,
}
use keymapper.StringIteration.{skip}
use keymapper.StringIteration.Commands.{
  Search, found, missing, unterminated_command, search_loop, close_level, open_or_close,
  nested_round, after_round, skip_nested, skip_terminal_command, or_unterminated, skip_arglist,
}
use keymapper.StringIteration.Tokens.{
  Token, WellFormed, after, after_lt, char, length-show-quoted, outcome, quoted, search_loop-show,
  show,
}

-- Behind the bracket that closes the level 1, by counting.
abbrev pub matching : ℕ → ℕ → ℕ → List Token → Option (List Token)
matching opening closing level [] = none
matching opening closing level (quoted quote body ∷ tokens) = matching opening closing level tokens
matching opening closing level (char c ∷ tokens) =
    let outer = matching opening closing (level - 1) tokens in
    let inner = matching opening closing (suc level) tokens in
    let same = matching opening closing level tokens in
    if closing == c
    then (if level - 1 == 0 then some tokens else outer)
    else if opening == c
    then inner
    else same

module _ (opening closing : ℕ) where
  abbrev round : ℕ → ℕ → List Token → Search
  round fuel level tokens =
      after_round (skip_nested opening closing fuel)
        (nested_round level (outcome (after closing tokens)) (outcome (after opening tokens)))

  skip_nested-round :
      (fuel level : ℕ) (tokens : List Token)
      → WellFormed tokens
      → skip_nested opening closing (suc fuel) level (show tokens) ≡ round fuel level tokens
  unfolding skip_nested
  skip_nested-round fuel level tokens w = rw (searched closing, searched opening) refl
    where
      searched :
          (c : ℕ)
          → search_loop (suc (length (show tokens))) (λ _. missing) (c ∷ []) (show tokens)
            ≡ outcome (after c tokens)
      searched c = search_loop-show c (suc (length (show tokens))) tokens w (omega arith)

  abbrev RoundMatches : List Token → Type 0
  RoundMatches tokens =
      (fuel level : ℕ)
      → length (show tokens) ≤ fuel
      → round fuel level tokens ≡ outcome (matching opening closing level tokens)

  skip_nested-next :
      (fuel level : ℕ) (tokens : List Token)
      → WellFormed tokens
      → length (show tokens) < fuel
      → RoundMatches tokens
      → skip_nested opening closing fuel level (show tokens)
        ≡ outcome (matching opening closing level tokens)
  skip_nested-next zero level tokens w l h = ground (arith, l)
  skip_nested-next (suc fuel) level tokens w l h =
      skip_nested-round fuel level tokens w ∙ h fuel level (omega (arith, l))

  open_or_close-behind :
      (level : ℕ) (tokens : List Token) (next : Option (List Token))
      → after opening tokens ≡ next
      → open_or_close level (show tokens) (outcome next) ≡ close_level level (show tokens)
  open_or_close-behind level tokens none e = refl
  open_or_close-behind level tokens (some rest) e = ground (arith, after_lt opening tokens rest e)

  round-closing :
      (fuel level c : ℕ) (tokens : List Token)
      → WellFormed tokens
      → length (show tokens) < fuel
      → RoundMatches tokens
      → after_round
          (skip_nested opening closing fuel)
          (open_or_close level (show tokens) (outcome (after opening tokens)))
        ≡ outcome
            (if level - 1 == 0 then some tokens else matching opening closing (level - 1) tokens)
  round-closing fuel level c tokens w l h =
      ap (after_round (skip_nested opening closing fuel))
        (open_or_close-behind level tokens (after opening tokens) refl)
      ∙ ground (arith, skip_nested-next fuel (level - 1) tokens w l h)

  round-opening :
      (fuel level : ℕ) (tokens : List Token) (next : Option (List Token))
      → after closing tokens ≡ next
      → WellFormed tokens
      → length (show tokens) < fuel
      → RoundMatches tokens
      → after_round
          (skip_nested opening closing fuel)
          (nested_round level (outcome next) (found (show tokens)))
        ≡ outcome (matching opening closing (suc level) tokens)
  round-opening fuel level tokens none e w l h =
      ap
        (λ (o : Option (List Token)).
          after_round (skip_nested opening closing fuel)
            (nested_round (suc level) (outcome o) (outcome (after opening tokens))))
        (sym e)
      ∙ h fuel (suc level) (omega (arith, l))
  round-opening fuel level tokens (some rest) e w l h =
      ground (arith, after_lt closing tokens rest e, skip_nested-next fuel (suc level) tokens w l h)

  module _ (differ : (opening == closing) ≡ false) where
    other_bracket : (c : ℕ) → (closing == c) ≡ true → (opening == c) ≡ false
    other_bracket c k = ground (arith, differ, k)

    round-char :
        (c : ℕ) (tokens : List Token) (fuel level : ℕ)
        → WellFormed tokens
        → length (show tokens) < fuel
        → RoundMatches tokens
        → round fuel level (char c ∷ tokens)
          ≡ outcome (matching opening closing level (char c ∷ tokens))
    round-char c tokens fuel level w l h = elim (Bool-cases (closing == c)) [
      | inl k ↦ rw (k, other_bracket c k) (round-closing fuel level c tokens w l h)
      | inr k ↦ elim (Bool-cases (opening == c)) [
        | inl o ↦ rw (k, o) (round-opening fuel level tokens (after closing tokens) refl w l h)
        | inr o ↦ rw (k, o) (h fuel level (omega (arith, l)))
      ]
    ]

    round-matching : (tokens : List Token) → WellFormed tokens → RoundMatches tokens
    round-matching [] w fuel level l = refl
    round-matching (quoted quote body ∷ tokens) w fuel level l =
        round-matching tokens w.1.1.1 fuel level
          (omega (arith, l, length-show-quoted quote body tokens))
    round-matching (char c ∷ tokens) w fuel level l =
        round-char c tokens fuel level w.1 (omega (arith, l)) (round-matching tokens w.1)

    -- A loop over brackets finds the bracket that closes the level, by counting the brackets that are
    -- in no string, or that there is none.
    skip_nested-matching :
        (tokens : List Token)
        → WellFormed tokens
        → skip_nested opening closing (suc (length (show tokens))) 1 (show tokens)
          ≡ outcome (matching opening closing 1 tokens)
    skip_nested-matching tokens w =
        skip_nested-next (suc (length (show tokens))) 1 tokens w (omega arith)
          (round-matching tokens w)

-- From the outcome of counting to what the function is to do.
abbrev pub closed : Option (List Token) → Search
closed none = unterminated_command
closed (some tokens) = found (show tokens)

-- `skip_terminal_command` on `$(` and any characters and strings behind it: it passes the bracket that
-- closes the command when the brackets outside of strings are counted, and throws that the command is
-- unterminated if there is none. The characters begin no comment, and no string follows another at once.
pub skip_terminal_command-matching :
    (tokens : List Token)
    → WellFormed tokens
    → skip_terminal_command (36 ∷ 40 ∷ show tokens) ≡ closed (matching 40 41 1 tokens)
unfolding skip_terminal_command skip
skip_terminal_command-matching tokens w =
    ap or_unterminated (skip_nested-matching 40 41 refl tokens w)
    ∙ or_unterminated-outcome (matching 40 41 1 tokens)
  where
    or_unterminated-outcome : (o : Option (List Token)) → or_unterminated (outcome o) ≡ closed o
    or_unterminated-outcome none = refl
    or_unterminated-outcome (some rest) = refl

-- `skip_arglist` on `[` and any characters and strings behind it: it passes the bracket that closes the
-- list when the brackets outside of strings are counted, and skips nothing if there is none. The
-- characters begin no comment, and no string follows another at once.
pub skip_arglist-matching :
    (tokens : List Token)
    → WellFormed tokens
    → skip_arglist (91 ∷ show tokens) ≡ outcome (matching 91 93 1 tokens)
unfolding skip_arglist skip
skip_arglist-matching tokens w = skip_nested-matching 91 93 refl tokens w
