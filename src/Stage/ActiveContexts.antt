-- ===== src/Stage/ActiveContexts.antt =====
-- src/runtime/Stage.cpp: the contexts of `update_active_contexts`, before and after.
use mathlib.Core.Bool.{xor}
use keymapper.Prelude.{
  [], ℕ, ◌<◌, ◌≡◌, refl, Bool, true, false, ◌&&◌, ◌||◌, List, ◌∷◌, arith, ◌==◌, ltb, negate,
  if◌then◌else◌, if_rule, All, any, contains, get_last?, push,
}
use keymapper.Stage.State.{Stage}
use keymapper.Stage.Setup.{has_device_filter}
use keymapper.Stage.Contexts.{
  context_at, match_context_modifier_filter, fallthrough_context, is_last, only_first,
  evaluate_contexts, update_active_contexts,
}

-- The modifiers of the context are pressed, or released where it inverts them, and one of its devices
-- is there.
abbrev pub fits : Stage → ℕ → Bool
fits s index =
    let context = context_at s.contexts index in
    xor (match_context_modifier_filter s.sequence context.modifier_filter)
      context.invert_modifier_filter
    && (negate (has_device_filter context) || negate (context.matching_device_bits == 0))

-- The context whose inputs stand for it.
abbrev pub target : Stage → ℕ → ℕ
target s index =
    if has_device_filter (context_at s.contexts index)
    then index
    else fallthrough_context s.contexts index

abbrev pub stands_for : Stage → ℕ → ℕ → Bool
stands_for s index client_index = fits s client_index && target s client_index == index

contains-push : (i x : ℕ) (xs : List ℕ) → contains i (push xs x) ≡ (contains i xs || x == i)
unfolding contains
contains-push i x [] = ground arith
contains-push i x (y ∷ xs) = ground (arith, contains-push i x xs)

is_last-contains : (i : ℕ) (xs : List ℕ) → is_last (get_last? xs) i ≡ true → contains i xs ≡ true
unfolding contains
is_last-contains i [] h = cc
is_last-contains i (x ∷ []) h = ground arith
is_last-contains i (x ∷ y ∷ xs) h = ground (arith, is_last-contains i (y ∷ xs) h)

push_other :
    (i x : ℕ) (fitting : Bool) (active : List ℕ)
    → contains i
        (if fitting && negate (is_last (get_last? active) x) then push active x else active)
      ≡ (contains i active || (fitting && x == i))
push_other i x fitting active = ground (arith, contains-push i x active, is_last-contains x active)

contains-evaluate :
    (s : Stage) (i : ℕ) (indices active : List ℕ)
    → contains i (evaluate_contexts s indices active)
      ≡ (contains i active || any (stands_for s i) indices)
unfolding evaluate_contexts any
contains-evaluate s i [] active = ground arith
contains-evaluate s i (index ∷ indices) active = ground (
  arith,
  contains-evaluate s i indices (
      if fits s index && negate (is_last (get_last? active) (target s index))
      then push active (target s index)
      else active),
  push_other i (target s index) (fits s index) active,
)

-- A context is active exactly if one that the client named stands for it: one that fits by its
-- modifiers and devices, and that is this context or, without a device filter, falls through to it.
pub contains-active_contexts :
    (s : Stage) (i : ℕ)
    → contains i (update_active_contexts s).active_contexts
      ≡ any (stands_for s i) s.active_client_contexts
unfolding update_active_contexts contains
contains-active_contexts s i = contains-evaluate s i s.active_client_contexts []

abbrev pub Increasing : List ℕ → Type 0
Increasing [] = Unit
Increasing (x ∷ xs) = All (λ (y : ℕ). x < y) xs × Increasing xs

contains-lower : (i x : ℕ) (xs : List ℕ) → i < x → All (λ (y : ℕ). x < y) xs → contains i xs ≡ false
unfolding contains
contains-lower i x [] h k = refl
contains-lower i x (y ∷ xs) h k = ground (arith, contains-lower i x xs h k.1)

contains-above : (i x : ℕ) (xs : List ℕ) → All (λ (y : ℕ). x < y) xs → contains i xs ≡ true → x < i
unfolding contains
contains-above i x [] k e = cc
contains-above i x (y ∷ xs) k e = ground (arith, contains-above i x xs k.1, k.0)

-- Of two increasing lists of contexts, the merge that toggles ContextActive visits exactly the
-- contexts of the first that the second does not have.
pub contains-only_first :
    (i : ℕ) (xs ys : List ℕ)
    → Increasing xs
    → Increasing ys
    → contains i (only_first xs ys) ≡ (contains i xs && negate (contains i ys))
unfolding only_first contains
contains-only_first i [] ys h k = refl
contains-only_first i (x ∷ xs) [] h k = ground (arith, contains-only_first i xs [] h.1 k)
contains-only_first i (x ∷ xs) (y ∷ ys) h k =
    let Wanted : List ℕ → Type 0 =
      λ r. contains i r ≡ (contains i (x ∷ xs) && negate (contains i (y ∷ ys))) in
    if_rule Wanted (ltb x y)
      (λ less.
        ground (arith, contains-only_first i xs (y ∷ ys) h.1 k, contains-lower i y ys, k.0, less))
      λ not_less.
        if_rule Wanted (ltb y x)
          (λ less.
            ground
              (arith, contains-only_first i (x ∷ xs) ys h k.1, contains-lower i x xs, h.0, less))
          (λ not_greater. ground (
            arith,
            not_less,
            not_greater,
            contains-only_first i xs ys h.1 k.1,
            contains-above i x xs h.0,
            contains-above i y ys k.0,
          ))
