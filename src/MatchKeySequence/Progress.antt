-- ===== src/MatchKeySequence/Progress.antt =====
-- src/runtime/MatchKeySequence.cpp: the rounds of the loop, and what each of them consumes.
use keymapper.Prelude.{
  ℕ, zero, suc, ◌+◌, ◌<◌, ◌≡◌, refl, ◌≢◌, ◌⊎◌, inl, inr, Bool, true, ◌&&◌, ◌||◌, List, [], ◌∷◌,
  some, arith, ◌==◌, if◌then◌else◌, if_rule, any, length, is_empty, head_or, tail, contains,
  remove_if, All, All-append, Option-cases,
}
use keymapper.Key
use keymapper.Key.{Key}
use keymapper.KeyEvent.{is_down_state, up, down, state_eq, KeyEvent, KeySequence}
use keymapper.MatchKeySequence.{
  MatchOutcome, Locals, Round, continue, return, matches_none, next_e, next_s, unifiable,
  unifiable_keys, mark_async, ignore_down, match_front, match_timing, match_expression_async,
  match_sequence_async, match_event, match_round, match_loop, outcome, match_key_sequence,
  match_key_sequence_lem, initial, enough,
}

abbrev pub HasKey : KeyEvent → Type 0
HasKey event = event.key ≢ Key.none

-- No event that is still to come, and no key to be ignored, is the key `none`.
abbrev pub AllHaveKeys : Locals → Type 0
AllHaveKeys l = All HasKey l.sequence × All (λ k. k ≢ Key.none) l.ignore_ups

abbrev HasKeys : Key → Key → Type 0
HasKeys a b = (a ≢ Key.none) × (b ≢ Key.none)

abbrev pub Progresses : Locals → Round → Type 0
Progresses l (continue l') = AllHaveKeys l' × (enough l' < enough l)
Progresses l (return result timeout l') = Unit

-- The current events: of a range, or `matches_none` at its end.
abbrev Sequence : KeyEvent → Locals → Type 0
Sequence se l = ((0 < length l.sequence) × HasKey se) ⊎ ((se.key ≡ Key.none) × (se.state ≡ up))

abbrev Expression : KeyEvent → Locals → Type 0
Expression ee l = (0 < length l.expression) ⊎ ((ee.key ≡ Key.none) × (ee.state ≡ up))

contains-HasKey :
    (k : Key) (ks : List Key) → All (λ j. j ≢ Key.none) ks → contains k ks ≡ true → k ≢ Key.none
unfolding contains
contains-HasKey k [] h c = cc
contains-HasKey k (j ∷ ks) h c = ground (arith, contains-HasKey k ks h.1)

length-tail {ℓ} : {A : Type ℓ} (xs : List A) → 0 < length xs → length (tail xs) < length xs
length-tail [] h = h
length-tail (x ∷ xs) h = omega arith

All-tail : (xs : KeySequence) → All HasKey xs → All HasKey (tail xs)
All-tail [] h = tt
All-tail (x ∷ xs) h = h.1

step_s : (l : Locals) → AllHaveKeys l → 0 < length l.sequence → Progresses l (continue (next_s l))
step_s l a h = ((All-tail l.sequence a.0, a.1), omega (arith, length-tail {0} l.sequence h))

step_e : (l : Locals) → AllHaveKeys l → 0 < length l.expression → Progresses l (continue (next_e l))
step_e l a h = (a, omega (arith, length-tail {0} l.expression h))

step_both :
    (l : Locals)
    → AllHaveKeys l
    → 0 < length l.sequence
    → 0 < length l.expression
    → Progresses l (continue (next_s (next_e l)))
step_both l a h k = (
  (All-tail l.sequence a.0, a.1),
  omega (arith, length-tail {0} l.sequence h, length-tail {0} l.expression k),
)

in_sequence_key : (se : KeyEvent) (l : Locals) → Sequence se l → HasKey se → 0 < length l.sequence
in_sequence_key se l (inl h) k = h.0
in_sequence_key se l (inr h) k = absurd (k h.0)

in_sequence_state :
    (se : KeyEvent) (l : Locals) → Sequence se l → se.state ≢ up → 0 < length l.sequence
in_sequence_state se l (inl h) k = h.0
in_sequence_state se l (inr h) k = absurd (k h.1)

in_expression_key :
    (ee : KeyEvent) (l : Locals) → Expression ee l → HasKey ee → 0 < length l.expression
in_expression_key ee l (inl h) k = h
in_expression_key ee l (inr h) k = absurd (k h.0)

in_expression_state :
    (ee : KeyEvent) (l : Locals) → Expression ee l → ee.state ≢ up → 0 < length l.expression
in_expression_state ee l (inl h) k = h
in_expression_state ee l (inr h) k = absurd (k h.1)

unifiable_keys-HasKey : (a b : Key) → unifiable_keys a b ≡ true → HasKeys a b
unfolding unifiable_keys
unifiable_keys-HasKey a b =
    if_rule (λ r. r ≡ true → HasKeys a b) (a == Key.none || b == Key.none) (λ _ h. cc)
      (λ t _. ground arith)

pub unifiable-HasKey : (a b : KeyEvent) → unifiable a b ≡ true → HasKeys a.key b.key
unfolding unifiable
unifiable-HasKey a b = λ h. ground (arith, unifiable_keys-HasKey a.key b.key)

mark_async-HasKey :
    (se : KeyEvent) (async async' : KeySequence) → mark_async se async ≡ some async' → HasKey se
unfolding mark_async
mark_async-HasKey se [] async' h = cc
mark_async-HasKey se (a ∷ rest) async' h = elim (Option-cases (mark_async se rest)) [
  | inl missing ↦ ground (arith, unifiable_keys-HasKey se.key a.key)
  | inr (marked, found) ↦ mark_async-HasKey se rest marked found
]

any-unifiable-HasKey :
    (ee : KeyEvent) (async : KeySequence) → any (unifiable ee) async ≡ true → HasKey ee
unfolding any
any-unifiable-HasKey ee [] h = cc
any-unifiable-HasKey ee (a ∷ rest) h =
    ground (arith, unifiable-HasKey ee a, any-unifiable-HasKey ee rest)

ignore_down-HasKey :
    (se : KeyEvent) (ups : List Key)
    → HasKey se
    → All (λ k. k ≢ Key.none) ups
    → All (λ k. k ≢ Key.none) (ignore_down se ups)
unfolding ignore_down
ignore_down-HasKey se ups h a =
    if_rule (All (λ k. k ≢ Key.none)) (state_eq se.state down)
      (λ _. All-append (λ k. k ≢ Key.none) ups (se.key ∷ []) a (h, tt)) (λ _. a)

-- Each part of the loop's body, under the facts that the loop hands it.
match_front-Progresses :
    (se : KeyEvent) (l : Locals) → AllHaveKeys l → Sequence se l → Progresses l (match_front se l)
unfolding match_front
match_front-Progresses se l a s = ground (
  arith,
  length-tail {0} l.sequence,
  All-tail l.sequence a.0,
  contains-HasKey se.key l.ignore_ups a.1,
  ignore_down-HasKey se l.ignore_ups,
)

match_timing-Progresses :
    (se ee : KeyEvent) (l : Locals)
    → AllHaveKeys l
    → Sequence se l
    → Expression ee l
    → Progresses l (match_timing se ee l)
unfolding match_timing
match_timing-Progresses se ee l a s x = ground (
  arith,
  length-tail {0} l.sequence,
  length-tail {0} l.expression,
  All-tail l.sequence a.0,
  match_front-Progresses se l a s,
)

match_expression_async-Progresses :
    (se ee : KeyEvent) (l : Locals)
    → AllHaveKeys l
    → Sequence se l
    → Expression ee l
    → Progresses l (match_expression_async se ee l)
unfolding match_expression_async
match_expression_async-Progresses se ee l a s x = ground (
  arith,
  length-tail {0} l.expression,
  any-unifiable-HasKey ee l.async,
  match_timing-Progresses se ee l a s x,
)

match_sequence_async-Progresses :
    (optional : Bool) (se ee : KeyEvent) (l : Locals)
    → AllHaveKeys l
    → Sequence se l
    → Expression ee l
    → Progresses l (match_sequence_async optional se ee l)
unfolding match_sequence_async
match_sequence_async-Progresses optional se ee l a s x =
    elim (Option-cases (mark_async se l.async)) [
      | inl missing ↦ ground (
        arith,
        length-tail {0} l.sequence,
        All-tail l.sequence a.0,
        match_expression_async-Progresses se ee l a s x,
      )
      | inr (marked, found) ↦ ground (
        arith,
        length-tail {0} l.sequence,
        All-tail l.sequence a.0,
        mark_async-HasKey se l.async marked found,
      )
    ]

match_event-Progresses :
    (optional : Bool) (se ee : KeyEvent) (l : Locals)
    → AllHaveKeys l
    → Sequence se l
    → Expression ee l
    → Progresses l (match_event optional se ee l)
unfolding match_event
match_event-Progresses optional se ee l a s x = ground (
  arith,
  length-tail {0} l.sequence,
  length-tail {0} l.expression,
  All-tail l.sequence a.0,
  unifiable-HasKey se ee,
  match_sequence_async-Progresses optional se ee l a s x,
)

head-Sequence : (l : Locals) → AllHaveKeys l → Sequence (head_or matches_none l.sequence) l
head-Sequence l a = present l.sequence a.0
  where
    present :
        (xs : KeySequence)
        → All HasKey xs
        → ((0 < length xs) × HasKey (head_or matches_none xs))
          ⊎ (((head_or matches_none xs).key ≡ Key.none) × ((head_or matches_none xs).state ≡ up))
    present [] h = inr (refl, refl)
    present (x ∷ xs) h = inl (omega arith, h.0)

head-Expression : (l : Locals) → Expression (head_or matches_none l.expression) l
head-Expression l = present l.expression
  where
    present :
        (xs : KeySequence)
        → (0 < length xs)
          ⊎ (((head_or matches_none xs).key ≡ Key.none) × ((head_or matches_none xs).state ≡ up))
    present [] = inr (refl, refl)
    present (x ∷ xs) = inl (omega arith)

-- A round that goes on leaves fewer events in the two ranges.
pub match_round-Progresses :
    (optional : Bool) (l : Locals) → AllHaveKeys l → Progresses l (match_round optional l)
unfolding match_round
match_round-Progresses optional l a =
    if_rule (Progresses l) (is_down_state se.state && contains se.key not_keys) (λ _. tt)
      (λ _. match_event-Progresses optional se ee l' a (head-Sequence l a) (head-Expression l))
  where
    se : KeyEvent
    se = head_or matches_none l.sequence

    ee : KeyEvent
    ee = head_or matches_none l.expression

    not_keys : List Key
    not_keys =
        if state_eq ee.state down then remove_if (λ k. k == ee.key) l.not_keys else l.not_keys

    l' : Locals
    l' = record l { not_keys = not_keys }

pub match_loop-total :
    (fuel : ℕ) (optional : Bool) (l : Locals)
    → enough l < fuel
    → AllHaveKeys l
    → (o : MatchOutcome) × (match_loop fuel optional l ≡ some o)
unfolding match_loop
match_loop-total zero optional l h a = absurd (omega arith)
match_loop-total (suc fuel) optional l h a =
    if_rule (λ r. (o : MatchOutcome) × (r ≡ some o)) (is_empty l.expression && is_empty l.sequence)
      (λ _. (_, refl))
      (λ _.
        after (match_round optional l) (match_round-Progresses optional l a)
          (match_loop-total fuel optional))
  where
    after :
        (r : Round)
        → Progresses l r
        → ((l' : Locals)
            → enough l' < fuel
            → AllHaveKeys l'
            → (o : MatchOutcome) × (match_loop fuel optional l' ≡ some o))
        → (o : MatchOutcome) × (elim r [
          | continue l' ↦ match_loop fuel optional l'
          | return result timeout l' ↦ some (outcome result timeout l')
        ]
            ≡ some o)
    after (continue l') p ih = ih l' (omega arith) p.0
    after (return result timeout l') p ih = (outcome result timeout l', refl)

-- The matcher returns within one round more than the two ranges have events, if no event of the
-- sequence has the key `none`; and what it returns is the outcome of that loop.
pub match_key_sequence-total :
    (expression sequence : KeySequence) (optional : Bool)
    → All HasKey sequence
    → match_loop (suc (length expression + length sequence)) optional (initial expression sequence)
      ≡ some (match_key_sequence expression sequence optional)
match_key_sequence-total expression sequence optional h =
    let (o, returned) =
      match_loop-total (suc (length expression + length sequence)) optional
        (initial expression sequence) (omega arith) (h, tt) in
    ground (arith, returned, match_key_sequence_lem expression sequence optional)
