-- ===== src/Stage/Update/Termination.antt =====
-- src/runtime/Stage.cpp: the rounds of the loop of `apply_input`, and what each of them finishes.
use keymapper.Prelude.{
  ℕ, zero, suc, ℤ, ◌+◌, ◌≤◌, ◌<◌, ◌≡◌, refl, ◌∙◌, ◌⊎◌, inl, inr, Bool, true, false, ◌&&◌, [], ◌∷◌,
  Option, none, some, arith, leb, negate, if◌then◌else◌, if_rule, length, any, drop_last,
}
use keymapper.Key.{is_virtual_key}
use keymapper.KeyEvent.{KeyEvent, KeySequence}
use keymapper.MatchKeySequence.{MatchResult, no_match, might_match, match}
use keymapper.Stage.State.{Stage, OutputRef, CurrentTimeout, Output}
use keymapper.Stage.Sequences.{is_non_optional, has_non_optional, finish_sequence}
use keymapper.Stage.Inputs.{MatchInput, match_input, forward_from_sequence}
use keymapper.Stage.Update.{
  is_result, Found, match_start, request_timeout, matched_timeout, filter_result, apply_match,
  forward_start, Iteration, repeat, leave, finish_round, whole, iterate, match_sequence,
  match_sequence_fuel, with_timeout,
}

-- An event that still has to be matched counts twice.
abbrev event_weight : KeyEvent → ℕ
event_weight e = if is_non_optional e then 2 else 1

abbrev weight : KeySequence → ℕ
weight [] = 0
weight (e ∷ es) = event_weight e + weight es

-- The first sequence is a beginning of the second.
abbrev Begins : KeySequence → KeySequence → Type 0
Begins [] ys = Unit
Begins (x ∷ xs) [] = ⊥
Begins (x ∷ xs) (y ∷ ys) = (x ≡ y) × Begins xs ys

Begins-refl : (xs : KeySequence) → Begins xs xs
Begins-refl [] = tt
Begins-refl (x ∷ xs) = (refl, Begins-refl xs)

Begins-drop_last : (xs ys : KeySequence) → Begins xs ys → Begins (drop_last xs) ys
Begins-drop_last [] ys h = tt
Begins-drop_last (x ∷ []) ys h = tt
Begins-drop_last (x ∷ x' ∷ xs) [] h = h
Begins-drop_last (x ∷ x' ∷ xs) (y ∷ ys) h = (h.0, Begins-drop_last (x' ∷ xs) ys h.1)

weight-le-length : (xs : KeySequence) → weight xs ≤ length xs + length xs
weight-le-length [] = omega arith
weight-le-length (x ∷ xs) = ground (arith, weight-le-length xs)

weight-finish_sequence : (n : ℕ) (xs : KeySequence) → weight (finish_sequence n xs) ≤ weight xs
unfolding finish_sequence
weight-finish_sequence zero xs = omega arith
weight-finish_sequence (suc n) [] = omega arith
weight-finish_sequence (suc n) (x ∷ xs) = ground (arith, weight-finish_sequence n xs)

-- Finishing a beginning that holds an event to match lowers the weight.
weight-finish_sequence-lt :
    (p xs : KeySequence)
    → Begins p xs
    → has_non_optional p ≡ true
    → weight (finish_sequence (length p) xs) < weight xs
unfolding finish_sequence has_non_optional any
weight-finish_sequence-lt [] xs b h = cc
weight-finish_sequence-lt (x ∷ p) [] b h = absurd b
weight-finish_sequence-lt (x ∷ p) (y ∷ xs) b h =
    ground (arith, weight-finish_sequence-lt p xs b.1, weight-finish_sequence (length p) xs)

-- A sequence that is finished as a whole holds no event to match.
finish_sequence-all : (xs : KeySequence) → has_non_optional (finish_sequence (length xs) xs) ≡ false
unfolding finish_sequence has_non_optional any
finish_sequence-all [] = refl
finish_sequence-all (x ∷ xs) = ground (arith, finish_sequence-all xs)

-- Forwarding from a sequence that holds an event to match lowers it too.
weight-forward_from_sequence :
    (xs : KeySequence) (o : Output)
    → has_non_optional xs ≡ true
    → weight (forward_from_sequence xs o).sequence < weight xs
unfolding forward_from_sequence has_non_optional any
weight-forward_from_sequence [] o h = cc
weight-forward_from_sequence (x ∷ xs) o h = ground (arith, weight-forward_from_sequence xs o)

-- What the search for a match of the sequence's start finds.
record FitsStart (all : KeySequence) (f : Found) : Type 0 where
  same_sequence : f.stage.sequence ≡ all
  begins : Begins f.sequence all
  to_match : is_result f.matched.result match ≡ true → has_non_optional f.sequence ≡ true

match_start-Fits :
    (fuel : ℕ) (device_index : ℤ) (m : MatchInput) (sequence : KeySequence) (s : Stage)
    → Begins sequence s.sequence
    → is_result m.result match ≡ false
    → FitsStart s.sequence (match_start fuel device_index m sequence s)
unfolding match_start match_input
match_start-Fits zero device_index m sequence s b n = record {
  same_sequence = refl;
  begins = b;
  to_match = λ h. cc;
}
match_start-Fits (suc fuel) device_index m sequence s b n =
    if_rule (FitsStart s.sequence) (leb (length sequence) 1)
      (λ _. record { same_sequence = refl; begins = b; to_match = λ h. cc })
      λ _.
        if_rule (FitsStart s.sequence) (negate (has_non_optional (drop_last sequence)))
          (λ _. record { same_sequence = refl; begins = shorter; to_match = λ h. cc })
          λ more.
            if_rule (FitsStart s.sequence) (is_result found.0.result match)
              (λ _. record { same_sequence = refl; begins = shorter; to_match = λ _. ground arith })
              (λ no.
                match_start-Fits fuel device_index found.0 (drop_last sequence) found.1 shorter no)
  where
    shorter : Begins (drop_last sequence) s.sequence
    shorter = Begins-drop_last sequence s.sequence b

    found : MatchInput × Stage
    found = match_input s false true (drop_last sequence) device_index

-- The weight that is left to a round, and one more for the change of `matched_are_optional`.
abbrev need : Bool → Stage → ℕ
need optional s = weight s.sequence + (if optional then 0 else 1)

-- Every event of the sequence was matched, or the sequence is held back since something might match.
abbrev pub Settled : Stage → Type 0
Settled s = (has_non_optional s.sequence ≡ false) ⊎ (s.sequence_might_match ≡ true)

abbrev Decreases : Bool → Stage → Iteration → Type 0
Decreases optional s (repeat optional' s') = need optional' s' < need optional s
Decreases optional s (leave s') = Settled s'

-- A result that is a match after the filter for timeouts was one before it.
filter_result-match :
    (event : KeyEvent) (start_only : Bool) (result : MatchResult) (output : Option OutputRef)
    (timeout : Option CurrentTimeout)
    → is_result (filter_result event start_only result output timeout).0 match ≡ true
    → is_result result match ≡ true
unfolding filter_result matched_timeout
filter_result-match event start_only result output none h = h
filter_result-match event start_only result output (some t) h = ground arith

request_timeout-sequence :
    (timeout : KeyEvent) (sequence : KeySequence) (s : Stage)
    → (request_timeout timeout sequence s).sequence ≡ s.sequence
unfolding request_timeout
request_timeout-sequence timeout sequence s = ground arith

finish_round-Decreases :
    (event : KeyEvent) (optional : Bool) (s : Stage) (f : Found)
    → FitsStart s.sequence f
    → has_non_optional s.sequence ≡ true
    → Decreases optional s (finish_round event optional f)
unfolding finish_round apply_match forward_start
finish_round-Decreases event optional s f fits more =
    if_rule (Decreases optional s) (is_result f.matched.result might_match) (λ _. inr refl)
      λ _.
        if_rule (Decreases optional s) (is_result filtered.0 match)
          (λ matched. rw same (
            omega (
              arith,
              weight-finish_sequence-lt f.sequence s.sequence fits.begins
                  (fits.to_match (filter_result-match event _ _ _ _ matched)),
            )))
          (λ _. omega (arith, forwarded))
  where
    s' : Stage
    s' = request_timeout f.matched.input_timeout_event f.sequence f.stage

    filtered : MatchResult × Option CurrentTimeout
    filtered =
        filter_result event f.matched_start_only f.matched.result f.matched.output
          s'.out.current_timeout

    same : s'.sequence ≡ s.sequence
    same =
        request_timeout-sequence f.matched.input_timeout_event f.sequence f.stage
        ∙ fits.same_sequence

    forwarded :
        weight (forward_from_sequence s'.sequence (with_timeout s' filtered.1).out).sequence
        < weight s.sequence
    forwarded =
        rw same (weight-forward_from_sequence s.sequence (with_timeout s' filtered.1).out more)

iterate-Decreases :
    (event : KeyEvent) (device_index : ℤ) (optional : Bool) (s : Stage)
    → has_non_optional s.sequence ≡ true
    → Decreases optional s (iterate event device_index optional s)
unfolding iterate match_input whole
iterate-Decreases event device_index optional s more =
    if_rule (Decreases optional s) (negate (is_result m.0.result match) && negate optional)
      (λ first. ground arith)
      λ _.
        if_rule (Decreases optional s)
          (is_virtual_key event.key && negate (is_result m.0.result match))
          (λ _. inl (finish_sequence-all s.sequence))
          λ _.
            if_rule (Decreases optional s) (is_result m.0.result no_match && s.sequence_might_match)
              (λ start.
                finish_round-Decreases event optional s _
                  (match_start-Fits (length s.sequence) device_index m.0 s.sequence m.1
                    (Begins-refl s.sequence) (ground arith))
                  more)
              λ _.
                finish_round-Decreases event optional s _
                  (record {
                    same_sequence = refl;
                    begins = Begins-refl s.sequence;
                    to_match = λ _. more;
                  })
                  more
  where
    m : MatchInput × Stage
    m = match_input s true optional s.sequence device_index

match_sequence-settles :
    (fuel : ℕ) (event : KeyEvent) (device_index : ℤ) (optional : Bool) (s : Stage)
    → need optional s < fuel
    → (s' : Stage) × (match_sequence fuel event device_index optional s ≡ some s') × Settled s'
unfolding match_sequence
match_sequence-settles zero event device_index optional s h = absurd (omega arith)
match_sequence-settles (suc fuel) event device_index optional s h =
    if_rule (λ r. (s' : Stage) × (r ≡ some s') × Settled s') (has_non_optional s.sequence)
      (λ more.
        after (iterate event device_index optional s)
          (iterate-Decreases event device_index optional s more)
          (match_sequence-settles fuel event device_index))
      (λ done. (s, refl, inl done))
  where
    after :
        (i : Iteration)
        → Decreases optional s i
        → ((o : Bool) (t : Stage)
            → need o t < fuel
            → (s' : Stage) × (match_sequence fuel event device_index o t ≡ some s') × Settled s')
        → (s' : Stage) × (elim i [
          | leave t ↦ some t
          | repeat o t ↦ match_sequence fuel event device_index o t
        ]
            ≡ some s')
          × Settled s'
    after (leave t) d ih = (t, refl, d)
    after (repeat o t) d ih = ih o t (omega arith)

-- The fuel that `apply_input` gives its loop is enough: the loop ends, and then every event of the
-- sequence was matched, or the sequence is held back since something might match.
pub match_sequence-total :
    (event : KeyEvent) (device_index : ℤ) (s : Stage)
    → (s' : Stage) × (match_sequence (match_sequence_fuel s.sequence) event device_index false s
        ≡ some s')
      × Settled s'
unfolding match_sequence_fuel
match_sequence-total event device_index s =
    match_sequence-settles _ event device_index false s (omega (arith, weight-le-length s.sequence))
