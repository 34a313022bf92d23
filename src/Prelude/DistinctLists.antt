-- ===== src/Prelude/DistinctLists.antt =====
-- Lists of keys in which no key stands twice.
use Prim.Native.Nat.{ℕ}
use mathlib.Core.Path.{◌≡◌, refl}
use mathlib.Core.Bool.{false, ◌||◌}
use mathlib.Core.List.{List, [], ◌∷◌}
use native.Mathlib.Omega.{arith}
use keymapper.Prelude.Tests.{◌==◌, if◌then◌else◌, if_rule, or_false_parts}
use keymapper.Prelude.Lists.{contains, push, remove_first}

-- No number stands in the list twice.
abbrev pub Distinct : List ℕ → Type 0
Distinct [] = Unit
Distinct (key ∷ keys) = (contains key keys ≡ false) × Distinct keys

pub contains-push :
    (a key : ℕ) (keys : List ℕ)
    → contains a keys ≡ false
    → (key == a) ≡ false
    → contains a (push keys key) ≡ false
unfolding contains
contains-push a key [] h k = ground (arith, k)
contains-push a key (x ∷ keys) h k = ground (arith, h, k, contains-push a key keys)

pub push-Distinct :
    (key : ℕ) (keys : List ℕ) → contains key keys ≡ false → Distinct keys → Distinct (push keys key)
unfolding contains
push-Distinct key [] h d = (refl, tt)
push-Distinct key (x ∷ keys) h d =
    let (other, rest) = or_false_parts (x == key) (contains key keys) h in
    (contains-push x key keys d.0 (ground (arith, other)), push-Distinct key keys rest d.1)

pub contains-remove_first :
    (a key : ℕ) (keys : List ℕ)
    → contains a keys ≡ false
    → contains a (remove_first (λ (k : ℕ). k == key) keys) ≡ false
unfolding contains remove_first
contains-remove_first a key [] h = refl
contains-remove_first a key (x ∷ keys) h = ground (arith, h, contains-remove_first a key keys)

pub remove_first-Distinct :
    (key : ℕ) (keys : List ℕ) → Distinct keys → Distinct (remove_first (λ (k : ℕ). k == key) keys)
unfolding remove_first
remove_first-Distinct key [] d = tt
remove_first-Distinct key (x ∷ keys) d =
    if_rule Distinct (x == key) (λ _. d.1)
      (λ _. (contains-remove_first x key keys d.0, remove_first-Distinct key keys d.1))

pub contains-push_or :
    (a key : ℕ) (keys : List ℕ) → contains a (push keys key) ≡ (contains a keys || key == a)
unfolding contains
contains-push_or a key [] = ground arith
contains-push_or a key (x ∷ keys) = ground (arith, contains-push_or a key keys)

pub contains-remove :
    (a key : ℕ) (keys : List ℕ)
    → Distinct keys
    → contains a (remove_first (λ (k : ℕ). k == key) keys)
      ≡ (if key == a then false else contains a keys)
unfolding contains remove_first
contains-remove a key [] d = ground arith
contains-remove a key (x ∷ keys) d = ground (arith, d.0, contains-remove a key keys d.1)
