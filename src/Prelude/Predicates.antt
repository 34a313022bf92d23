-- ===== src/Prelude/Predicates.antt =====
-- Properties of all elements of a list, and how the list operations keep them.
use mathlib.Core.Path.{◌≡◌}
use mathlib.Core.Bool.{Bool, false}
use mathlib.Core.List.{List, [], ◌∷◌, ◌++◌}
use mathlib.Core.Option.{Option, none, some}
use keymapper.Prelude.Tests.{if_rule}
use keymapper.Prelude.Lists.{remove_if, remove_first}

abbrev pub All {ℓ κ} : {A : Type ℓ} → (A → Type κ) → List A → Type κ
All P [] = Unit
All P (x ∷ xs) = P x × All P xs

abbrev pub OptionAll {ℓ κ} : {A : Type ℓ} → (A → Type κ) → Option A → Type κ
OptionAll P none = Unit
OptionAll P (some x) = P x

module _ {ℓ κ} {A : Type ℓ} (P : A → Type κ) where
  pub All-append : (xs ys : List A) → All P xs → All P ys → All P (xs ++ ys)
  All-append [] ys hx hy = hy
  All-append (x ∷ xs) ys hx hy = (hx.0, All-append xs ys hx.1 hy)

  pub All-remove_if : (p : A → Bool) (xs : List A) → All P xs → All P (remove_if p xs)
  unfolding remove_if
  All-remove_if p [] h = tt
  All-remove_if p (x ∷ xs) h =
      if_rule (All P) (p x) (λ _. All-remove_if p xs h.1) (λ _. (h.0, All-remove_if p xs h.1))

  pub All-remove_first : (p : A → Bool) (xs : List A) → All P xs → All P (remove_first p xs)
  unfolding remove_first
  All-remove_first p [] h = tt
  All-remove_first p (x ∷ xs) h =
      if_rule (All P) (p x) (λ _. h.1) (λ _. (h.0, All-remove_first p xs h.1))

module _ {ℓ} {A : Type ℓ} (p : A → Bool) where
  pub remove_if-All : (xs : List A) → All (λ x. p x ≡ false) (remove_if p xs)
  unfolding remove_if
  remove_if-All [] = tt
  remove_if-All (x ∷ xs) =
      if_rule (All (λ y. p y ≡ false)) (p x) (λ _. remove_if-All xs)
        (λ kept. (kept, remove_if-All xs))

module _ {ℓ κ μ} {A : Type ℓ} {P : A → Type κ} {Q : A → Type μ} (f : (x : A) → P x → Q x) where
  pub All-imp : (xs : List A) → All P xs → All Q xs
  All-imp [] h = tt
  All-imp (x ∷ xs) h = (f x h.0, All-imp xs h.1)
