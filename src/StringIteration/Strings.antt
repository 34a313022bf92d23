-- ===== src/StringIteration/Strings.antt =====
-- src/config/string_iteration.h: `read_string` on quoted strings.
use keymapper.Prelude.{
  ℕ, ◌+◌, ◌-◌, ◌≡◌, refl, ◌∙◌, ap, sym, ◌⊎◌, inl, inr, [], ◌∷◌, ◌++◌, some, arith, ==_self, false,
  length, length-append, contains,
}
use keymapper.StringIteration.{
  Text, single_quote, double_quote, skip, skip_until, take, before_last, read_quoted, read_string,
}

-- The first quote is found.
pub skip_until-quote :
    (quote : ℕ) (body rest : Text)
    → contains quote body ≡ false
    → skip_until (body ++ quote ∷ rest) (quote ∷ []) ≡ some rest
unfolding skip_until skip contains
skip_until-quote quote [] rest h = ground (arith, ==_self quote)
skip_until-quote quote (c ∷ body) rest h = ground (arith, skip_until-quote quote body rest, h)

take-length : (body rest : Text) → take (length body) (body ++ rest) ≡ body
take-length [] rest = refl
take-length (c ∷ body) rest = ap (λ (t : Text). c ∷ t) (take-length body rest)

before_last-quote : (quote : ℕ) (body rest : Text) → before_last (body ++ quote ∷ rest) rest ≡ body
before_last-quote quote body rest =
    ap (λ (n : ℕ). take n (body ++ quote ∷ rest)) (the_length (length-append body (quote ∷ rest)))
    ∙ take-length body (quote ∷ rest)
  where
    the_length :
        length (body ++ quote ∷ rest) ≡ length body + length (quote ∷ rest)
        → length (body ++ quote ∷ rest) - length rest - 1 ≡ length body
    the_length e = omega (arith, e)

read_quoted-quote :
    (quote : ℕ) (body rest : Text)
    → contains quote body ≡ false
    → read_quoted quote (body ++ quote ∷ rest) ≡ some (body, rest)
unfolding read_quoted
read_quoted-quote quote body rest h =
    rw (skip_until-quote quote body rest h, read_quoted)
      (ap (λ (t : Text). some (t, rest)) (before_last-quote quote body rest))

-- A text between two single quotes, or between two double quotes, that does not itself hold the quote
-- is read back by `read_string`, which leaves what is behind the closing quote.
pub read_string-quoted :
    (quote : ℕ) (body rest : Text)
    → (quote ≡ single_quote) ⊎ (quote ≡ double_quote)
    → contains quote body ≡ false
    → read_string (quote ∷ body ++ quote ∷ rest) ≡ some (body, rest)
unfolding read_string skip
read_string-quoted quote body rest (inl e) h =
    rw e (read_quoted-quote single_quote body rest (ap (λ (q : ℕ). contains q body) (sym e) ∙ h))
read_string-quoted quote body rest (inr e) h =
    rw e (read_quoted-quote double_quote body rest (ap (λ (q : ℕ). contains q body) (sym e) ∙ h))
