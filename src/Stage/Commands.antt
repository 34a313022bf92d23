-- ===== src/Stage/Commands.antt =====
-- src/runtime/Stage.cpp: `find_output` for a command, and `sort_command_outputs`.
use keymapper.Prelude.{
  [], ℤ, int_eq, int_lt, ◌≡◌, refl, Bool, true, false, Option, none, some, List, ◌∷◌, if◌then◌else◌,
  negate, find_if, rfind_if, All, OptionAll, if_rule, ◌++◌, arith,
}
use keymapper.KeyEvent.{KeySequence}
use keymapper.Stage.State.{CommandOutput}
use keymapper.Stage.Setup.{insert_output, sort_outputs}
use keymapper.Stage.Contexts.{with_index, find_command_output}
use mathlib.Core.List.{reverse, reverse-cons}

abbrev pub output_of : Option CommandOutput → Option KeySequence
output_of none = none
output_of (some c) = some c.output

abbrev NotBelow : ℤ → List CommandOutput → Type 0
NotBelow index cs = All (λ (c : CommandOutput). int_lt index c.index ≡ false) cs

-- Falling indices.
abbrev Sorted : List CommandOutput → Type 0
Sorted [] = Unit
Sorted (c ∷ cs) = NotBelow c.index cs × Sorted cs

lt_ne : (a b i : ℤ) → int_lt a b ≡ true → int_eq a i ≡ true → int_eq b i ≡ false
lt_ne a b i h e = ground arith

lt_le : (a b : ℤ) → int_lt a b ≡ true → int_lt b a ≡ false
lt_le a b h = ground arith

le_trans : (a b c : ℤ) → int_lt a b ≡ false → int_lt b c ≡ false → int_lt a c ≡ false
le_trans a b c h k = ground arith

NotBelow-le :
    (a b : ℤ) (cs : List CommandOutput) → int_lt a b ≡ false → NotBelow b cs → NotBelow a cs
NotBelow-le a b [] h k = tt
NotBelow-le a b (c ∷ cs) h k = (le_trans a b c.index h k.0, NotBelow-le a b cs h k.1)

insert-NotBelow :
    (i : ℤ) (a : CommandOutput) (cs : List CommandOutput)
    → int_lt i a.index ≡ false
    → NotBelow i cs
    → NotBelow i (insert_output a cs)
unfolding insert_output
insert-NotBelow i a [] h k = (h, tt)
insert-NotBelow i a (c ∷ cs) h k = ground (arith, insert-NotBelow i a cs h k.1)

insert-Sorted :
    (a : CommandOutput) (cs : List CommandOutput) → Sorted cs → Sorted (insert_output a cs)
unfolding insert_output
insert-Sorted a [] h = (tt, tt)
insert-Sorted a (c ∷ cs) h =
    if_rule Sorted (int_lt a.index c.index)
      (λ below.
        (insert-NotBelow c.index a cs (lt_le a.index c.index below) h.0, insert-Sorted a cs h.1))
      (λ not_below. ((not_below, NotBelow-le a.index c.index cs not_below h.0), h))

sort-Sorted : (cs : List CommandOutput) → Sorted (sort_outputs cs)
unfolding sort_outputs
sort-Sorted [] = tt
sort-Sorted (c ∷ cs) = insert-Sorted c (sort_outputs cs) (sort-Sorted cs)

abbrev pub has_index : ℤ → CommandOutput → Bool
has_index i c = int_eq c.index i

rfind-insert :
    (i : ℤ) (a : CommandOutput) (cs : List CommandOutput)
    → rfind_if (has_index i) (insert_output a cs) ≡ rfind_if (has_index i) (a ∷ cs)
unfolding insert_output rfind_if
rfind-insert i a [] = refl
rfind-insert i a (c ∷ cs) = ground (arith, rfind-insert i a cs, lt_ne a.index c.index i)

rfind-sort :
    (i : ℤ) (cs : List CommandOutput)
    → rfind_if (has_index i) (sort_outputs cs) ≡ rfind_if (has_index i) cs
unfolding sort_outputs rfind_if
rfind-sort i [] = refl
rfind-sort i (c ∷ cs) = ground (arith, rfind-insert i c (sort_outputs cs), rfind-sort i cs)

find-append :
    (p : CommandOutput → Bool) (xs ys : List CommandOutput)
    → find_if p (xs ++ ys) ≡ elim (find_if p xs) [ some y ↦ some y | none ↦ find_if p ys ]
unfolding find_if
find-append p [] ys = refl
find-append p (x ∷ xs) ys = ground (arith, find-append p xs ys)

find-reverse :
    (p : CommandOutput → Bool) (xs : List CommandOutput) → find_if p (reverse xs) ≡ rfind_if p xs
unfolding find_if rfind_if
find-reverse p [] = refl
find-reverse p (x ∷ xs) =
    rw (reverse-cons x xs, find-append p (reverse xs) (x ∷ []), find-reverse p xs) refl

abbrev not_less : ℤ → CommandOutput → Bool
not_less i c = negate (int_lt c.index i)

-- What is found among entries that are not above `limit` is not above it.
found_below :
    (limit : ℤ) (p : CommandOutput → Bool) (cs : List CommandOutput)
    → NotBelow limit cs
    → OptionAll (λ (c : CommandOutput). int_lt limit c.index ≡ false) (rfind_if p cs)
unfolding rfind_if
found_below limit p [] h = tt
found_below limit p (c ∷ cs) h = ground (arith, found_below limit p cs h.1)

found_passes :
    (p : CommandOutput → Bool) (cs : List CommandOutput)
    → OptionAll (λ (c : CommandOutput). p c ≡ true) (rfind_if p cs)
unfolding rfind_if
found_passes p [] = tt
found_passes p (c ∷ cs) = ground (arith, found_passes p cs)

-- An entry not below another that is not below `i` has the index `i` only if that one has.
between :
    (i a b : ℤ) → int_lt a i ≡ false → int_lt b a ≡ false → int_eq b i ≡ true → int_eq a i ≡ true
between i a b h k e = ground arith

-- One entry more: the search and the scan agree, if they did on the entries behind it.
search_step :
    (i : ℤ) (c : CommandOutput) (found scanned : Option CommandOutput)
    → OptionAll (λ (z : CommandOutput). int_lt c.index z.index ≡ false) found
    → OptionAll (λ (z : CommandOutput). not_less i z ≡ true) found
    → with_index found i ≡ output_of scanned
    → with_index (elim found [ some y ↦ some y | none ↦ if not_less i c then some c else none ]) i
      ≡ output_of (elim scanned [ some y ↦ some y | none ↦ if has_index i c then some c else none ])
search_step i c none none below passes e = ground arith
search_step i c none (some y) below passes e = cc
search_step i c (some z) none below passes e = ground (arith, between i z.index c.index)
search_step i c (some z) (some y) below passes e = e

search-Sorted :
    (i : ℤ) (cs : List CommandOutput)
    → Sorted cs
    → with_index (rfind_if (not_less i) cs) i ≡ output_of (rfind_if (has_index i) cs)
unfolding rfind_if
search-Sorted i [] h = refl
search-Sorted i (c ∷ cs) h =
    search_step i c (rfind_if (not_less i) cs) (rfind_if (has_index i) cs)
      (found_below c.index (not_less i) cs h.0) (found_passes (not_less i) cs)
      (search-Sorted i cs h.1)

-- No two outputs have the same index.
abbrev pub UniqueIndices : List CommandOutput → Type 0
UniqueIndices [] = Unit
UniqueIndices (c ∷ cs) =
    All (λ (x : CommandOutput). int_eq x.index c.index ≡ false) cs × UniqueIndices cs

none_with_index :
    (c : CommandOutput) (index : ℤ) (cs : List CommandOutput)
    → int_eq c.index index ≡ true
    → All (λ (x : CommandOutput). int_eq x.index c.index ≡ false) cs
    → rfind_if (has_index index) cs ≡ none
unfolding rfind_if
none_with_index c index [] e h = refl
none_with_index c index (x ∷ cs) e h = ground (arith, none_with_index c index cs e h.1, h.0)

rfind-find :
    (index : ℤ) (cs : List CommandOutput)
    → UniqueIndices cs
    → rfind_if (has_index index) cs ≡ find_if (has_index index) cs
unfolding rfind_if find_if
rfind-find index [] h = refl
rfind-find index (c ∷ cs) h = ground (arith, rfind-find index cs h.1, unique)
  where
    unique : int_eq c.index index ≡ true → rfind_if (has_index index) cs ≡ none
    unique e = none_with_index c index cs e h.0

-- The binary search of `find_output` in the outputs that the constructor sorted finds the output
-- with the index of the command, as a search through all of them does, and nothing where a context
-- has none. No two outputs have the same index, so that their order after the sort is determined.
pub find_command_output-sort :
    (index : ℤ) (outputs : List CommandOutput)
    → UniqueIndices outputs
    → find_command_output (sort_outputs outputs) index
      ≡ output_of (find_if (has_index index) outputs)
unfolding find_command_output
find_command_output-sort index outputs unique =
    rw
      (
        find-reverse (not_less index) (sort_outputs outputs),
        search-Sorted index (sort_outputs outputs) (sort-Sorted outputs),
        rfind-sort index outputs,
        rfind-find index outputs unique,
      )
      refl
