-- ===== src/StringIteration/Skips.antt =====
-- src/config/string_iteration.h: `skip` and what it leaves.
use keymapper.Prelude.{◌≡◌, refl, ◌↔◌, ap, ◌∙◌, [], ◌∷◌, ◌++◌, some, arith}
use keymapper.StringIteration.{Text, skip}

pub skip-append : (str rest : Text) → skip (str ++ rest) str ≡ some rest
unfolding skip
skip-append [] rest = refl
skip-append (s ∷ str) rest = ground (arith, skip-append str rest)

skip_sound : (text str rest : Text) → skip text str ≡ some rest → text ≡ str ++ rest
unfolding skip
skip_sound text [] rest h = ground (arith, h)
skip_sound [] (s ∷ str) rest h = cc
skip_sound (c ∷ text) (s ∷ str) rest h = ground (arith, skip_sound text str rest)

-- `skip` succeeds exactly where the text begins with the given one, and leaves what is behind it.
pub skip_iff : (text str rest : Text) → (skip text str ≡ some rest) ↔ (text ≡ str ++ rest)
skip_iff text str rest =
    (skip_sound text str rest, λ e. ap (λ (t : Text). skip t str) e ∙ skip-append str rest)
