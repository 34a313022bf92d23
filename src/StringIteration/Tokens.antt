-- ===== src/StringIteration/Tokens.antt =====
-- src/config/string_iteration.h: what `skip_until_not_in_string` finds. A text is seen as characters and
-- strings, of which no string stands directly behind another.
use keymapper.Prelude.{
  ℕ, zero, suc, ◌≡◌, refl, ◌∙◌, ap, ◌<◌, Bool, true, false, ◌||◌, List, [], ◌∷◌, ◌++◌, Option, none,
  some, ◌==◌, if◌then◌else◌, length, length-append, contains, arith,
}
use keymapper.StringIteration.{Text, comment_mark, skip, skip_comment}
use keymapper.StringIteration.Strings.{skip_until-quote}
use keymapper.StringIteration.Commands.{
  Search, found, missing, is_quote, skip_quoted, search_at, search_round, search_loop,
}

pub data Token : Type 0 where
  char : ℕ → Token
  -- The quote, and what stands between it and the next one.
  quoted : ℕ → Text → Token

abbrev pub show : List Token → Text
show [] = []
show (char c ∷ tokens) = c ∷ show tokens
show (quoted quote body ∷ tokens) = quote ∷ body ++ quote ∷ show tokens

abbrev pub is_special : ℕ → Bool
is_special c = c == comment_mark || is_quote c

abbrev pub starts_with_string : List Token → Bool
starts_with_string [] = false
starts_with_string (char c ∷ tokens) = false
starts_with_string (quoted quote body ∷ tokens) = true

-- The characters begin no comment and no string, and the strings end where they are said to.
abbrev pub WellFormed : List Token → Type 0
WellFormed [] = Unit
WellFormed (char c ∷ tokens) = (is_special c ≡ false) × WellFormed tokens
WellFormed (quoted quote body ∷ tokens) =
    (is_quote quote ≡ true)
    × ((contains quote body ≡ false) × ((starts_with_string tokens ≡ false) × WellFormed tokens))

-- Behind the first character `c` that is not in a string.
abbrev pub after : ℕ → List Token → Option (List Token)
after c [] = none
after c (char x ∷ tokens) = let rest = after c tokens in if c == x then some tokens else rest
after c (quoted quote body ∷ tokens) = after c tokens

abbrev pub outcome : Option (List Token) → Search
outcome none = missing
outcome (some tokens) = found (show tokens)

pub length-show-quoted :
    (quote : ℕ) (body : Text) (tokens : List Token)
    → length (show tokens) < length (show (quoted quote body ∷ tokens))
length-show-quoted quote body tokens = omega (arith, length-append body (quote ∷ show tokens))

skip_quoted-string :
    (quote : ℕ) (body rest : Text)
    → is_quote quote ≡ true
    → contains quote body ≡ false
    → skip_quoted (skip_comment (quote ∷ body ++ quote ∷ rest)).1 ≡ some rest
unfolding skip_quoted skip_comment
skip_quoted-string quote body rest q h = ground (arith, q, skip_until-quote quote body rest h)

skip_quoted-char :
    (c : ℕ) (rest : Text)
    → is_special c ≡ false
    → skip_quoted (skip_comment (c ∷ rest)).1 ≡ some (c ∷ rest)
unfolding skip_quoted skip_comment
skip_quoted-char c rest h = ground (arith, h)

search_at-char :
    (next : Text → Search) (c x : ℕ) (tokens : List Token)
    → next (show tokens) ≡ outcome (after c tokens)
    → search_at next (c ∷ []) (x ∷ show tokens) ≡ outcome (after c (char x ∷ tokens))
unfolding search_at skip
search_at-char next c x tokens h = ground (arith, h)

pub search_loop-show :
    (c fuel : ℕ) (tokens : List Token)
    → WellFormed tokens
    → length (show tokens) < fuel
    → search_loop fuel (λ _. missing) (c ∷ []) (show tokens) ≡ outcome (after c tokens)
unfolding search_loop skip_quoted skip_comment search_at skip
search_loop-show c zero tokens w l = ground (arith, l)
search_loop-show c (suc fuel) [] w l = refl
search_loop-show c (suc fuel) (char x ∷ tokens) w l =
    ap (search_round (search_loop fuel (λ _. missing) (c ∷ [])) (λ _. missing) (c ∷ []))
      (skip_quoted-char x (show tokens) w.0)
    ∙ search_at-char (search_loop fuel (λ _. missing) (c ∷ [])) c x tokens
        (search_loop-show c fuel tokens w.1 (omega (arith, l)))
search_loop-show c (suc fuel) (quoted quote body ∷ []) w l =
    ap (search_round (search_loop fuel (λ _. missing) (c ∷ [])) (λ _. missing) (c ∷ []))
      (skip_quoted-string quote body [] w.0 w.1.0)
search_loop-show c (suc fuel) (quoted quote body ∷ char x ∷ tokens) w l =
    ap (search_round (search_loop fuel (λ _. missing) (c ∷ [])) (λ _. missing) (c ∷ []))
      (skip_quoted-string quote body (x ∷ show tokens) w.0 w.1.0)
    ∙ search_at-char (search_loop fuel (λ _. missing) (c ∷ [])) c x tokens (
        search_loop-show c fuel tokens w.1.1.1.1
          (omega (arith, l, length-show-quoted quote body (char x ∷ tokens))))
search_loop-show c (suc fuel) (quoted quote body ∷ quoted q b ∷ tokens) w l = ground (arith, w)

pub after_lt :
    (c : ℕ) (tokens rest : List Token)
    → after c tokens ≡ some rest
    → length (show rest) < length (show tokens)
after_lt c [] rest h = cc
after_lt c (char x ∷ tokens) rest h = ground (arith, h, after_lt c tokens rest)
after_lt c (quoted quote body ∷ tokens) rest h =
    omega (arith, after_lt c tokens rest h, length-show-quoted quote body tokens)
