-- ===== src/MatchKeySequence/Plain.antt =====
-- src/runtime/MatchKeySequence.cpp: expressions and sequences of plain presses and releases.
use keymapper.Prelude.{
  ℕ, zero, suc, ◌+◌, ◌<◌, ◌≡◌, refl, ◌⊎◌, inl, inr, Bool, true, false, [], ◌∷◌, ◌++◌, none, arith,
  ◌==◌, if◌then◌else◌, length, any, contains, remove_if, All, Bool-cases,
}
use keymapper.Key
use keymapper.Key.{Key}
use keymapper.KeyEvent.{up, down, KeyEvent, KeySequence, default_event, event_eq}
use keymapper.MatchKeySequence.{
  MatchResult, match, no_match, might_match, Locals, continue, return, unifiable, unifiable_keys,
  unifiable_states, mark_async, released_in_between, match_front, match_timing,
  match_expression_async, match_sequence_async, match_event, match_round, match_loop,
  match_loop-continue, match_loop-return, match_key_sequence, match_key_sequence_lem, or_no_match,
}

-- A press or a release of a key that is none of the matcher's special ones.
pub record IsPlain (event : KeyEvent) : Type 0 where
  pub pressed_or_released : (event.state ≡ up) ⊎ (event.state ≡ down)
  pub has_key : (event.key == Key.none) ≡ false
  pub not_any : (event.key == Key.any) ≡ false
  pub not_timeout : (event.key == Key.timeout) ≡ false

-- The reference: the sequence is the expression, or the beginning of it, or neither.
pub plain_match : KeySequence → KeySequence → MatchResult
plain_match [] [] = match
plain_match [] (s ∷ ss) = no_match
plain_match (e ∷ es) [] = might_match
plain_match (e ∷ es) (s ∷ ss) = if event_eq s e then plain_match es ss else no_match

-- The variables of the loop at a plain pair of ranges.
abbrev at : ℕ → KeySequence → KeySequence → KeySequence → Locals
at e seen expression sequence = record {
  expression = expression;
  e = e;
  sequence = sequence;
  seen = seen;
  is_no_might_match = false;
  async = [];
  not_keys = [];
  ignore_ups = [];
  history_timeout = default_event;
  any_key_matches = [];
}

unifiable-plain : (s e : KeyEvent) → IsPlain s → IsPlain e → unifiable s e ≡ event_eq s e
unfolding unifiable unifiable_keys unifiable_states
unifiable-plain s e p q = ground arith

round-both :
    (opt : Bool) (n : ℕ) (seen : KeySequence) (e s : KeyEvent) (es ss : KeySequence)
    → IsPlain s
    → IsPlain e
    → event_eq s e ≡ true
    → match_round opt (at n seen (e ∷ es) (s ∷ ss)) ≡ continue (at (n + 1) (seen ++ s ∷ []) es ss)
unfolding match_round match_event contains remove_if
round-both opt n seen e s es ss p q h = ground (arith, unifiable-plain s e p q)

round-differ :
    (opt : Bool) (n : ℕ) (seen : KeySequence) (e s : KeyEvent) (es ss : KeySequence)
    → IsPlain s
    → IsPlain e
    → event_eq s e ≡ false
    → match_round opt (at n seen (e ∷ es) (s ∷ ss))
      ≡ return no_match none (at n seen (e ∷ es) (s ∷ ss))
unfolding match_round match_event contains remove_if match_sequence_async mark_async
    match_expression_async any released_in_between match_timing match_front
round-differ opt n seen e s es ss p q h = ground (arith, unifiable-plain s e p q)

round-expression_end :
    (opt : Bool) (n : ℕ) (seen : KeySequence) (s : KeyEvent) (ss : KeySequence)
    → IsPlain s
    → match_round opt (at n seen [] (s ∷ ss)) ≡ return no_match none (at n seen [] (s ∷ ss))
unfolding match_round match_event contains remove_if match_sequence_async mark_async
    match_expression_async any released_in_between match_timing match_front unifiable unifiable_keys
round-expression_end opt n seen s ss p = ground arith

round-sequence_end :
    (opt : Bool) (n : ℕ) (seen : KeySequence) (e : KeyEvent) (es : KeySequence)
    → IsPlain e
    → match_round opt (at n seen (e ∷ es) []) ≡ return might_match none (at n seen (e ∷ es) [])
unfolding match_round match_event contains remove_if match_sequence_async mark_async
    match_expression_async any released_in_between match_timing match_front unifiable unifiable_keys
round-sequence_end opt n seen e es p = ground arith

match_loop-plain :
    (fuel : ℕ) (opt : Bool) (n : ℕ) (seen es ss : KeySequence)
    → length es + length ss < fuel
    → All IsPlain es
    → All IsPlain ss
    → (or_no_match (match_loop fuel opt (at n seen es ss))).result ≡ plain_match es ss
unfolding plain_match
match_loop-plain zero opt n seen es ss l p q = elim l [ ]
match_loop-plain (suc fuel) opt n seen [] [] l p q = unfold match_loop in refl
match_loop-plain (suc fuel) opt n seen [] (s ∷ ss) l p q =
    rw (match_loop-return fuel opt _ _ _ _ refl (round-expression_end opt n seen s ss q.0))
match_loop-plain (suc fuel) opt n seen (e ∷ es) [] l p q =
    rw (match_loop-return fuel opt _ _ _ _ refl (round-sequence_end opt n seen e es p.0))
match_loop-plain (suc fuel) opt n seen (e ∷ es) (s ∷ ss) l p q = elim (Bool-cases (event_eq s e)) [
  | inl same ↦
      rw
        (match_loop-continue fuel opt _ _ refl (round-both opt n seen e s es ss q.0 p.0 same), same)
        (match_loop-plain fuel opt (n + 1) (seen ++ s ∷ []) es ss (omega arith) p.1 q.1)
  | inr other ↦ rw (
    match_loop-return fuel opt _ _ _ _ refl (round-differ opt n seen e s es ss q.0 p.0 other),
    other,
  )
]

-- On plain expressions and sequences the matcher compares the two from the front: `match` exactly
-- where they are the same, `might_match` where the sequence is a proper beginning of the expression,
-- and `no_match` at the first difference or where the sequence is longer.
pub match_key_sequence-plain :
    (expression sequence : KeySequence) (optional : Bool)
    → All IsPlain expression
    → All IsPlain sequence
    → (match_key_sequence expression sequence optional).result ≡ plain_match expression sequence
match_key_sequence-plain expression sequence optional p q =
    rw (match_key_sequence_lem expression sequence optional)
      (match_loop-plain _ optional 0 [] expression sequence (omega arith) p q)
