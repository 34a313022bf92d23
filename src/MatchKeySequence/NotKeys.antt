-- ===== src/MatchKeySequence/NotKeys.antt =====
-- src/runtime/MatchKeySequence.cpp: the keys that an expression forbids, as A in `!A B`.
use keymapper.Prelude.{
  ℕ, zero, suc, ◌+◌, ◌≡◌, refl, ◌≢◌, Bool, true, false, ◌&&◌, List, [], ◌∷◌, some, arith, ◌==◌,
  if◌then◌else◌, if_rule, is_empty, any, contains, push, remove_if, tail, head_or, inl, inr,
  Bool-cases, and_parts, ==_iff, ==_self,
}
use keymapper.Key
use keymapper.Key.{Key}
use keymapper.KeyEvent.{down, not, state_eq, is_down_state, KeyEvent, KeySequence, key_event}
use keymapper.MatchKeySequence.{
  match, Locals, Round, continue, return, matches_none, match_front, match_timing,
  match_expression_async, match_sequence_async, match_event, match_round, match_loop,
  match_loop-continue, initial, outcome, or_no_match, match_key_sequence, match_key_sequence_lem,
}

-- The sequence's event presses the key.
abbrev pub presses : Key → KeyEvent → Bool
presses k event = is_down_state event.state && event.key == k

-- The expression's event asks for the key to be pressed, which takes it from the forbidden ones.
abbrev pub asks_for : Key → KeyEvent → Bool
asks_for k event = state_eq event.state down && event.key == k

-- The key is forbidden from here on, and is pressed in what is left of the sequence.
record Forbids (k : Key) (l : Locals) : Type 0 where
  forbidden : contains k l.not_keys ≡ true
  not_asked : any (asks_for k) l.expression ≡ false
  pressed : any (presses k) l.sequence ≡ true

abbrev Keeps : Key → Round → Type 0
Keeps k (continue l) = Forbids k l
Keeps k (return result timeout l) = result ≢ match

-- What the rest of a round may use: the facts after the step to the next event too.
record Ahead (k : Key) (l : Locals) : Type 0 where
  now : Forbids k l
  not_asked : any (asks_for k) (tail l.expression) ≡ false
  pressed : any (presses k) (tail l.sequence) ≡ true

contains-push : (k x : Key) (xs : List Key) → contains k xs ≡ true → contains k (push xs x) ≡ true
unfolding contains
contains-push k x [] h = cc
contains-push k x (y ∷ xs) h = ground (arith, contains-push k x xs)

contains-remove_ne :
    (k x : Key) (xs : List Key)
    → (x == k) ≡ false
    → contains k xs ≡ true
    → contains k (remove_if (λ y. y == x) xs) ≡ true
unfolding contains remove_if
contains-remove_ne k x [] n h = cc
contains-remove_ne k x (y ∷ xs) n h = ground (arith, contains-remove_ne k x xs n)

match_front-Keeps : (k : Key) (se : KeyEvent) (l : Locals) → Ahead k l → Keeps k (match_front se l)
unfolding match_front
match_front-Keeps k se l a = ground arith

match_timing-Keeps :
    (k : Key) (se ee : KeyEvent) (l : Locals) → Ahead k l → Keeps k (match_timing se ee l)
unfolding match_timing
match_timing-Keeps k se ee l a = ground (arith, match_front-Keeps k se l a)

match_expression_async-Keeps :
    (k : Key) (se ee : KeyEvent) (l : Locals) → Ahead k l → Keeps k (match_expression_async se ee l)
unfolding match_expression_async
match_expression_async-Keeps k se ee l a = ground (arith, match_timing-Keeps k se ee l a)

match_sequence_async-Keeps :
    (k : Key) (optional : Bool) (se ee : KeyEvent) (l : Locals)
    → Ahead k l
    → Keeps k (match_sequence_async optional se ee l)
unfolding match_sequence_async
match_sequence_async-Keeps k optional se ee l a =
    ground (arith, match_expression_async-Keeps k se ee l a)

match_event-Keeps :
    (k : Key) (optional : Bool) (se ee : KeyEvent) (l : Locals)
    → Ahead k l
    → Keeps k (match_event optional se ee l)
unfolding match_event
match_event-Keeps k optional se ee l a = ground (
  arith,
  contains-push k ee.key l.not_keys a.now.forbidden,
  match_sequence_async-Keeps k optional se ee l a,
)

tail-not_any : (p : KeyEvent → Bool) (xs : KeySequence) → any p xs ≡ false → any p (tail xs) ≡ false
unfolding any
tail-not_any p [] h = h
tail-not_any p (x ∷ xs) h = ground arith

tail-any :
    (p : KeyEvent → Bool) (xs : KeySequence)
    → any p xs ≡ true
    → p (head_or matches_none xs) ≡ false
    → any p (tail xs) ≡ true
unfolding any
tail-any p [] h n = cc
tail-any p (x ∷ xs) h n = ground arith

head-not_asked :
    (k : Key) (xs : KeySequence)
    → any (asks_for k) xs ≡ false
    → asks_for k (head_or matches_none xs) ≡ false
unfolding any
head-not_asked k [] h = refl
head-not_asked k (x ∷ xs) h = ground arith

undo_not-contains :
    (k : Key) (ee : KeyEvent) (ks : List Key)
    → asks_for k ee ≡ false
    → contains k ks ≡ true
    → contains k (if state_eq ee.state down then remove_if (λ j. j == ee.key) ks else ks) ≡ true
undo_not-contains k ee ks n h =
    if_rule (λ r. contains k r ≡ true) (state_eq ee.state down)
      (λ d. contains-remove_ne k ee.key ks (ground arith) h) (λ _. h)

not_pressed :
    (k : Key) (se : KeyEvent) (ks : List Key)
    → contains k ks ≡ true
    → (is_down_state se.state && contains se.key ks) ≡ false
    → presses k se ≡ false
not_pressed k se ks h free = elim (Bool-cases (presses k se)) [
  | inl p ↦
      let same : (se.key == k) ≡ true = (and_parts (is_down_state se.state) (se.key == k) p).1 in
      let there : contains se.key ks ≡ true = rw ((==_iff se.key k).0 same) h in
      absurd (cc (there, free))
  | inr n ↦ n
]

match_round-Keeps :
    (k : Key) (optional : Bool) (l : Locals) → Forbids k l → Keeps k (match_round optional l)
unfolding match_round
match_round-Keeps k optional l f =
    if_rule (Keeps k) (is_down_state se.state && contains se.key not_keys) (λ _ e. cc)
      λ free. match_event-Keeps k optional se ee l' (ahead free)
  where
    se : KeyEvent
    se = head_or matches_none l.sequence

    ee : KeyEvent
    ee = head_or matches_none l.expression

    not_keys : List Key
    not_keys =
        if state_eq ee.state down then remove_if (λ j. j == ee.key) l.not_keys else l.not_keys

    l' : Locals
    l' = record l { not_keys = not_keys }

    kept : contains k not_keys ≡ true
    kept = undo_not-contains k ee l.not_keys (head-not_asked k l.expression f.not_asked) f.forbidden

    ahead : (is_down_state se.state && contains se.key not_keys) ≡ false → Ahead k l'
    ahead free = record {
      now = record { forbidden = kept; not_asked = f.not_asked; pressed = f.pressed };
      not_asked = tail-not_any (asks_for k) l.expression f.not_asked;
      pressed = tail-any (presses k) l.sequence f.pressed (not_pressed k se not_keys kept free);
    }

match_loop-Keeps :
    (fuel : ℕ) (k : Key) (optional : Bool) (l : Locals)
    → Forbids k l
    → (or_no_match (match_loop fuel optional l)).result ≢ match
unfolding match_loop any
match_loop-Keeps zero k optional l f = λ e. cc
match_loop-Keeps (suc fuel) k optional l f =
    if_rule (λ r. (or_no_match r).result ≢ match) (is_empty l.expression && is_empty l.sequence)
      (λ e. absurd (not_empty l.sequence f.pressed (and_parts _ _ e).1))
      (λ _.
        after (match_round optional l) (match_round-Keeps k optional l f)
          (match_loop-Keeps fuel k optional))
  where
    not_empty : (xs : KeySequence) → any (presses k) xs ≡ true → is_empty xs ≡ true → ⊥
    not_empty [] h e = cc
    not_empty (x ∷ xs) h e = cc

    after :
        (r : Round)
        → Keeps k r
        → ((l' : Locals)
            → Forbids k l'
            → (or_no_match (match_loop fuel optional l')).result ≢ match)
        → (or_no_match (elim r [
          | continue l' ↦ match_loop fuel optional l'
          | return result timeout l' ↦ some (outcome result timeout l')
        ])).result
          ≢ match
    after (continue l') p ih = ih l' p
    after (return result timeout l') p ih = p

first_round :
    (k : Key) (expression sequence : KeySequence) (optional : Bool)
    → k ≢ Key.timeout
    → match_round optional (initial (key_event k not ∷ expression) sequence)
      ≡ continue (record (initial expression sequence) { e = 0 + 1; not_keys = k ∷ [] })
unfolding match_round match_event contains
first_round k expression sequence optional t = ground arith

-- An expression that begins with `!K` and does not ask for K later does not match a sequence in
-- which K is pressed, whatever else the two hold.
pub not_key-ne-match :
    (k : Key) (expression sequence : KeySequence) (optional : Bool)
    → k ≢ Key.timeout
    → any (asks_for k) expression ≡ false
    → any (presses k) sequence ≡ true
    → (match_key_sequence (key_event k not ∷ expression) sequence optional).result ≢ match
unfolding contains
not_key-ne-match k expression sequence optional t n p =
    rw
      (
        match_key_sequence_lem (key_event k not ∷ expression) sequence optional,
        match_loop-continue _ optional _ _ refl (first_round k expression sequence optional t),
      )
      (match_loop-Keeps _ k optional _
        (record { forbidden = rw (==_self k); not_asked = n; pressed = p }))
