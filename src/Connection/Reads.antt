-- ===== src/Connection/Reads.antt =====
-- src/common/Connection.h: what is written is read again.
use mathlib.Core.List.{append_assoc}
use keymapper.Prelude.{
  ℕ, zero, suc, ◌+◌, ◌*◌, ◌/◌, ◌≡◌, refl, ap, sym, ◌∙◌, ◌<◌, ℤ, pos, negsuc, Bool, true, false,
  Option, none, some, List, [], ◌∷◌, ◌++◌, length, length-append, arith, All, map, subst,
}
use keymapper.Connection.{
  Bytes, Reader, ◌>>=◌, pure, take, drop, replicate, can_read, read_bytes, number_bytes,
  number_of_bytes, write_number, read_number, write_bool, read_bool, int_bits, int_of_bits,
  write_int, read_int, write_string, read_string, write_each, read_each, write_all, read_all,
  numbers_of_bytes, write_vector, read_vector,
}

-- The read gives the value for the written bytes, and leaves what is behind them.
pub record Reads {A : Type 0} (read : Reader A) (written : Bytes) (a : A) : Type 0 where
  pub apply : (rest : Bytes) → read (written ++ rest) ≡ some (a, rest)

module _ {A B : Type 0} where
  pub bind-Reads :
      {m : Reader A} (f : A → Reader B) {w w' : Bytes} {a : A} {b : B}
      → Reads m w a
      → Reads (f a) w' b
      → Reads (m >>= f) (w ++ w') b
  unfolding ◌>>=◌
  bind-Reads {m} f {w} {w'} {a} h k = record {
    apply = λ rest.
        ap (m >>= f) (append_assoc w w' rest)
        ∙ ap (λ (o : Option (A × Bytes)). elim o [ none ↦ none | some r ↦ f r.0 r.1 ])
            (h.apply (w' ++ rest))
        ∙ k.apply rest;
  }

  pub at_last :
      {m : Reader A} (g : A → B) {w : Bytes} {a : A}
      → Reads m w a
      → Reads (m >>= λ x. pure (g x)) w (g a)
  unfolding ◌>>=◌ pure
  at_last g h = record {
    apply = λ rest.
        ap (λ (o : Option (A × Bytes)). elim o [ none ↦ none | some r ↦ some (g r.0, r.1) ])
          (h.apply rest);
  }

pub nothing_read : {A : Type 0} {a : A} → Reads (pure a) [] a
unfolding pure
nothing_read = record { apply = λ rest. refl }

take-length : (w rest : Bytes) → take (length w) (w ++ rest) ≡ w
take-length [] rest = refl
take-length (b ∷ w) rest = ap (λ (t : Bytes). b ∷ t) (take-length w rest)

drop-length : (w rest : Bytes) → drop (length w) (w ++ rest) ≡ rest
drop-length [] rest = refl
drop-length (b ∷ w) rest = drop-length w rest

pub read_bytes-Reads : (result w : Bytes) → Reads (read_bytes result (length w)) w w
unfolding read_bytes
read_bytes-Reads result w = record {
  apply = λ rest. rw (can rest (length-append w rest), take-length w rest, drop-length w rest);
}
  where
    can :
        (rest : Bytes)
        → length (w ++ rest) ≡ length w + length rest
        → can_read (length w) (w ++ rest) ≡ true
    can rest e = ground (arith, e)

-- The number needs no more bytes.
abbrev Fits : ℕ → ℕ → Type 0
Fits zero n = n ≡ 0
Fits (suc size) n = Fits size (n / 256)

number_of_bytes-bytes : (size n : ℕ) → Fits size n → number_of_bytes (number_bytes size n) ≡ n
unfolding number_of_bytes number_bytes
number_of_bytes-bytes zero n h = sym h
number_of_bytes-bytes (suc size) n h = omega (arith, number_of_bytes-bytes size (n / 256) h)

pub length-number_bytes : (size n : ℕ) → length (number_bytes size n) ≡ size
unfolding number_bytes
length-number_bytes zero n = refl
length-number_bytes (suc size) n = ap suc (length-number_bytes size (n / 256))

read_number-Reads : (size n : ℕ) → Fits size n → Reads (read_number size) (write_number size n) n
unfolding read_number write_number
read_number-Reads size n h =
    subst
      (λ (k : ℕ).
        Reads (read_bytes (replicate size 0) k >>= λ bytes. pure (number_of_bytes bytes))
          (number_bytes size n) n)
      (length-number_bytes size n)
      (subst
        (Reads
          (read_bytes (replicate size 0) (length (number_bytes size n)) >>= λ bytes.
            pure (number_of_bytes bytes))
          (number_bytes size n))
        (number_of_bytes-bytes size n h)
        (at_last _ (read_bytes-Reads (replicate size 0) (number_bytes size n))))

pub read_u8-Reads : (n : ℕ) → n < 256 → Reads (read_number 1) (write_number 1 n) n
read_u8-Reads n h = read_number-Reads 1 n (omega arith)

pub read_u16-Reads : (n : ℕ) → n < 65536 → Reads (read_number 2) (write_number 2 n) n
read_u16-Reads n h = read_number-Reads 2 n (omega arith)

pub read_u32-Reads : (n : ℕ) → n < 4294967296 → Reads (read_number 4) (write_number 4 n) n
read_u32-Reads n h = read_number-Reads 4 n (omega arith)

pub read_bool-Reads : (b : Bool) → Reads read_bool (write_bool b) b
unfolding read_bool write_bool
read_bool-Reads true = at_last _ (read_u8-Reads 1 (omega arith))
read_bool-Reads false = at_last _ (read_u8-Reads 0 (omega arith))

abbrev pub IsInt32 : ℤ → Type 0
IsInt32 (pos n) = n < 2147483648
IsInt32 (negsuc n) = n < 2147483648

int_of_bits-bits : (i : ℤ) → IsInt32 i → int_of_bits (int_bits i) ≡ i
int_of_bits-bits (pos n) h = ground arith
int_of_bits-bits (negsuc n) h = ground arith

int_bits_lt : (i : ℤ) → IsInt32 i → int_bits i < 4294967296
int_bits_lt (pos n) h = omega arith
int_bits_lt (negsuc n) h = omega arith

pub read_int-Reads : (i : ℤ) → IsInt32 i → Reads read_int (write_int i) i
unfolding read_int write_int
read_int-Reads i h =
    subst (Reads (read_number 4 >>= λ n. pure (int_of_bits n)) (write_number 4 (int_bits i)))
      (int_of_bits-bits i h) (at_last _ (read_u32-Reads (int_bits i) (int_bits_lt i h)))

-- A size that a message can state.
abbrev pub IsSize : ℕ → Type 0
IsSize n = n < 4294967296

pub read_string-Reads : (s : Bytes) → IsSize (length s) → Reads read_string (write_string s) s
unfolding read_string write_string
read_string-Reads s h =
    bind-Reads _ (read_u32-Reads (length s) h) (read_bytes-Reads (replicate (length s) 32) s)

module _ {A B : Type 0} (P : A → Type 0) (read : Reader B) (write : A → Bytes) (f : A → B) where
  read_each-Reads :
      ((a : A) → P a → Reads read (write a) (f a))
      → (xs : List A) → All P xs
      → Reads (read_each (length xs) read) (write_each write xs) (map f xs)
  unfolding read_each write_each
  read_each-Reads one [] h = nothing_read
  read_each-Reads one (x ∷ xs) h = bind-Reads _ (one x h.0) (at_last _ (read_each-Reads one xs h.1))

  pub read_all-Reads :
      ((a : A) → P a → Reads read (write a) (f a))
      → (xs : List A) → IsSize (length xs)
      → All P xs
      → Reads (read_all read) (write_all write xs) (map f xs)
  unfolding read_all write_all
  read_all-Reads one xs size h =
      bind-Reads _ (read_u32-Reads (length xs) size) (read_each-Reads one xs h)

length-write_each : (xs : List ℕ) → length (write_each (write_number 2) xs) ≡ 2 * length xs
unfolding write_each write_number
length-write_each [] = omega arith
length-write_each (x ∷ xs) = omega (
  arith,
  length-append (number_bytes 2 x) (write_each (number_bytes 2) xs),
  length-number_bytes 2 x,
  length-write_each xs,
)

numbers_of_bytes-write_each :
    (xs : List ℕ)
    → All (λ (x : ℕ). x < 65536) xs
    → numbers_of_bytes (length xs) 2 (write_each (write_number 2) xs) ≡ xs
unfolding write_each write_number number_bytes number_of_bytes
numbers_of_bytes-write_each [] h = refl
numbers_of_bytes-write_each (x ∷ xs) h =
    rw (numbers_of_bytes-write_each xs h.1) (ap (λ (y : ℕ). y ∷ xs) (omega arith))

-- A vector of numbers of two bytes, such as keys.
pub read_vector-Reads :
    (xs : List ℕ)
    → IsSize (length xs)
    → All (λ (x : ℕ). x < 65536) xs
    → Reads (read_vector 2) (write_vector 2 xs) xs
unfolding read_vector write_vector write_all
read_vector-Reads xs size h = bind-Reads _ (read_u32-Reads (length xs) size) (
    subst
      (λ (n : ℕ).
        Reads
          (read_bytes (replicate n 0) n >>= λ bytes. pure (numbers_of_bytes (length xs) 2 bytes))
          (write_each (write_number 2) xs) xs)
      (length-write_each xs)
      (subst
        (Reads
          (read_bytes (replicate (length written) 0) (length written) >>= λ bytes.
            pure (numbers_of_bytes (length xs) 2 bytes))
          written)
        (numbers_of_bytes-write_each xs h)
        (at_last _ (read_bytes-Reads (replicate (length written) 0) written))))
  where
    written : Bytes
    written = write_each (write_number 2) xs
