-- ===== src/MatchKeySequence/Groups.antt =====
-- src/runtime/MatchKeySequence.cpp: the expression of a group of two keys, `(A B)` in a mapping.
use keymapper.Prelude.{
  ℕ, ◌+◌, ◌≡◌, refl, ◌≢◌, ◌∙◌, ◌++◌, suc, ap, sym, Bool, true, false, [], ◌∷◌, Option, arith, ◌==◌,
  ==_self, ==_ne, any, contains, remove_if, remove_first,
}
use keymapper.Key
use keymapper.Key.{Key, is_keyboard_key, is_device_key}
use keymapper.KeyEvent.{up_async, down, down_async, KeyEvent, KeySequence, key_event}
use keymapper.MatchKeySequence.{
  MatchOutcome, or_no_match, match, Locals, continue, matches_none, unifiable, unifiable_keys,
  unifiable_states, match_sequence_async, match_expression_async, mark_async, match_event,
  match_round, match_loop, initial, match_key_sequence, match_key_sequence_lem, match_loop-continue,
}

-- The releases, which may come at any time.
abbrev pub releases : Key → Key → KeySequence
releases a b = key_event a up_async ∷ key_event b up_async ∷ []

abbrev pub group : Key → Key → KeySequence
group a b =
    key_event a down_async
    ∷ key_event b down_async
    ∷ key_event a down
    ∷ key_event b down
    ∷ releases a b

-- A key that is neither a mark nor a wildcard.
abbrev pub IsPlainKey : Key → Type 0
IsPlainKey k = (k ≢ Key.none) × ((k ≢ Key.any) × (k ≢ Key.timeout))

-- The locals after `e` events of the expression.
abbrev at : ℕ → KeySequence → KeySequence → KeySequence → KeySequence → Locals
at e expression sequence seen async = record (initial expression sequence) {
  e = e;
  seen = seen;
  async = async;
}

enter_group :
    (a b x : Key) (optional : Bool) (sequence : KeySequence)
    → match_loop 9 optional (initial (group a b) (key_event x down ∷ sequence))
      ≡ match_loop 7 optional (
          at 2
            (key_event a down ∷ key_event b down ∷ releases a b)
            (key_event x down ∷ sequence)
            []
            (key_event a down_async ∷ key_event b down_async ∷ []))
unfolding match_round match_event contains match_loop
enter_group a b x optional sequence = refl

unifiable-same : (k : Key) → IsPlainKey k → unifiable (key_event k down) (key_event k down) ≡ true
unfolding unifiable unifiable_keys unifiable_states
unifiable-same k p = ground (arith, p.0, p.1)

unifiable_keys-same : (k : Key) → IsPlainKey k → unifiable_keys k k ≡ true
unfolding unifiable_keys
unifiable_keys-same k p = ground (arith, p.0)

unifiable_keys-other :
    (a b : Key) → IsPlainKey a → IsPlainKey b → a ≢ b → unifiable_keys a b ≡ false
unfolding unifiable_keys
unifiable_keys-other a b p q ne = ground (arith, ne, (p.1).0, (q.1).0)

unifiable-other :
    (a b : Key)
    → IsPlainKey a
    → IsPlainKey b
    → a ≢ b
    → unifiable (key_event a down) (key_event b down) ≡ false
unfolding unifiable
unifiable-other a b p q ne = ground (arith, unifiable_keys-other a b p q ne, (p.1).0, (q.1).0)

-- The sequence is over.
unifiable-over : (k : Key) → unifiable matches_none (key_event k down) ≡ false
unfolding unifiable unifiable_keys
unifiable-over k = ground arith

plain_not :
    (k : Key)
    → IsPlainKey k
    → ((k == Key.none) ≡ false) × (((k == Key.any) ≡ false) × ((k == Key.timeout) ≡ false))
plain_not k p = (==_ne k Key.none p.0, (==_ne k Key.any (p.1).0, ==_ne k Key.timeout (p.1).1))

-- The sequence's event is the next one of the expression.
direct :
    (k : Key) (e : ℕ) (optional : Bool) (expression sequence seen async : KeySequence)
    → IsPlainKey k
    → match_round optional
        (at e (key_event k down ∷ expression) (key_event k down ∷ sequence) seen async)
      ≡ continue (
          at
            (e + 1)
            expression
            sequence
            (seen ++ key_event k down ∷ [])
            (remove_if (λ c. k == c.key) async))
unfolding match_round match_event contains remove_if
direct k e optional expression sequence seen async p =
    rw (((plain_not k p).1).0, unifiable-same k p) refl

-- The sequence's event is a later one of the group.
early :
    (a b : Key) (optional : Bool) (expression sequence seen : KeySequence)
    → IsPlainKey a
    → IsPlainKey b
    → a ≢ b
    → match_round optional (
        at 2
          (key_event a down ∷ expression)
          (key_event b down ∷ sequence)
          seen
          (key_event a down_async ∷ key_event b down_async ∷ []))
      ≡ continue (
          at 2
            (key_event a down ∷ expression)
            sequence
            (seen ++ key_event b down ∷ [])
            (key_event a down_async ∷ key_event b down ∷ []))
unfolding match_round match_event contains remove_if match_sequence_async mark_async
early a b optional expression sequence seen pa pb ne =
    rw
      (
        ((plain_not a pa).1).0,
        unifiable-other b a pb pa (λ e. ne (sym e)),
        ((plain_not a pa).1).1,
        unifiable_keys-other b a pb pa (λ e. ne (sym e)),
        unifiable_keys-same b pb,
      )
      refl

over_async :
    (k : Key) (e : ℕ) (expression seen : KeySequence)
    → IsPlainKey k
    → match_expression_async matches_none
        (key_event k down)
        (at e (key_event k down ∷ expression) [] seen (key_event k down ∷ []))
      ≡ continue (at (e + 1) expression [] seen [])
unfolding match_expression_async any remove_first
over_async k e expression seen p = rw (unifiable-same k p) refl

-- The sequence is over, and the expression's event came earlier.
late :
    (k : Key) (e : ℕ) (optional : Bool) (expression seen : KeySequence)
    → IsPlainKey k
    → match_round optional (at e (key_event k down ∷ expression) [] seen (key_event k down ∷ []))
      ≡ continue (at (e + 1) expression [] seen [])
unfolding match_round match_event contains remove_if match_sequence_async mark_async
late k e optional expression seen p =
    rw (unifiable-over k, ((plain_not k p).1).0, ((plain_not k p).1).1)
      (over_async k e expression seen p)

-- The async event of the key is gone after its press.
pressed_gone :
    (a b : Key)
    → a ≢ b
    → remove_if (λ (c : KeyEvent). a == c.key) (key_event a down_async ∷ key_event b down ∷ [])
      ≡ key_event b down ∷ []
unfolding remove_if
pressed_gone a b ne = rw (==_self a, ==_ne a b ne) refl

-- Only the releases are left, which are optional.
ends :
    (a b : Key) (n : ℕ) (optional : Bool) (seen async : KeySequence)
    → (or_no_match
        (match_loop (suc (suc (suc n))) optional (at 4 (releases a b) [] seen async))).result
      ≡ match
unfolding match_loop match_round match_event contains
ends a b n optional seen async = refl

in_order :
    (a b : Key) (optional : Bool)
    → IsPlainKey a
    → IsPlainKey b
    → (or_no_match (
        match_loop 9 optional
          (initial (group a b) (key_event a down ∷ key_event b down ∷ [])))).result
      ≡ match
in_order a b optional pa pb =
    ap (λ (r : Option MatchOutcome). (or_no_match r).result)
      (enter_group a b a optional (key_event b down ∷ [])
        ∙ match_loop-continue 6 optional _ _ refl (
            direct a 2 optional (key_event b down ∷ releases a b) (key_event b down ∷ []) []
              (key_event a down_async ∷ key_event b down_async ∷ []) pa)
        ∙ match_loop-continue 5 optional _ _ refl (direct b 3 optional (releases a b) [] _ _ pb))
    ∙ ends a b 2 optional _ _

in_reverse :
    (a b : Key) (optional : Bool)
    → IsPlainKey a
    → IsPlainKey b
    → a ≢ b
    → (or_no_match (
        match_loop 9 optional
          (initial (group a b) (key_event b down ∷ key_event a down ∷ [])))).result
      ≡ match
in_reverse a b optional pa pb ne =
    ap (λ (r : Option MatchOutcome). (or_no_match r).result)
      (enter_group a b b optional (key_event a down ∷ [])
        ∙ match_loop-continue 6 optional _ _ refl (
            early a b optional (key_event b down ∷ releases a b) (key_event a down ∷ []) [] pa pb
              ne)
        ∙ match_loop-continue 5 optional _ _ refl
            (direct a 2 optional (key_event b down ∷ releases a b) [] _ _ pa)
        ∙ ap
            (λ (async : KeySequence). match_loop 5 optional (
              at 3 (key_event b down ∷ releases a b) [] (key_event b down ∷ key_event a down ∷ [])
                async))
            (pressed_gone a b ne)
        ∙ match_loop-continue 4 optional _ _ refl
            (late b 3 optional (releases a b) (key_event b down ∷ key_event a down ∷ []) pb))
    ∙ ends a b 1 optional _ _

-- The expression of a group of two different keys, neither of them `none`, `any` or `timeout`,
-- matches the presses of the two in either order, with and without optional matched events.
pub match_key_sequence-group :
    (a b : Key) (optional : Bool)
    → IsPlainKey a
    → IsPlainKey b
    → a ≢ b
    → ((match_key_sequence (group a b) (key_event a down ∷ key_event b down ∷ []) optional).result
        ≡ match)
      × ((match_key_sequence (group a b) (key_event b down ∷ key_event a down ∷ []) optional).result
          ≡ match)
match_key_sequence-group a b optional pa pb ne = (
  rw (match_key_sequence_lem (group a b) (key_event a down ∷ key_event b down ∷ []) optional)
      (in_order a b optional pa pb),
  rw (match_key_sequence_lem (group a b) (key_event b down ∷ key_event a down ∷ []) optional)
      (in_reverse a b optional pa pb ne),
)
