-- ===== src/Connection/Frames.antt =====
-- src/common/Connection.h: messages in a stream of bytes that arrives in pieces.
use mathlib.Core.List.{append_assoc, append-nil, map-append}
use keymapper.Prelude.{
  ℕ, zero, suc, ◌+◌, ◌≡◌, refl, ap, sym, ◌∙◌, ◌<◌, ◌≤◌, ◌⊎◌, inl, inr, true, false, List, [], ◌∷◌,
  ◌++◌, ◌==◌, Option, some, leb, length, length-append, arith, All, map, subst, Bool-cases,
}
use keymapper.Connection.{
  Bytes, Reader, can_read, write_number, read_number, number_bytes, write_each, send_message,
  prepend, received, read_loop, read_messages,
}
use keymapper.Connection.Reads.{Reads, IsSize, read_u32-Reads, length-number_bytes}

-- No complete message is in front.
abbrev pub IsIncomplete : Bytes → Type 0
IsIncomplete d =
    (can_read 4 d ≡ false)
    ⊎ ((header : ℕ × Bytes) × (read_number 4 d ≡ some header)
        × (can_read header.0 header.1 ≡ false))

-- What the bytes of one list begin with is in front of those of another.
split_append :
    (zs xs ws ys : Bytes)
    → xs ++ ys ≡ zs ++ ws
    → length zs ≤ length xs
    → (xs' : Bytes) × (xs ≡ zs ++ xs') × (xs' ++ ys ≡ ws)
split_append [] xs ws ys e l = (xs, refl, e)
split_append (z ∷ zs) [] ws ys e l = absurd (omega arith)
split_append (z ∷ zs) (x ∷ xs) ws ys e l =
    let (xs', p, q) = split_append zs xs ws ys (tails e) (tail_le l) in
    (xs', cons_eq xs' (heads e) p, q)
  where
    tails : x ∷ xs ++ ys ≡ z ∷ zs ++ ws → xs ++ ys ≡ zs ++ ws
    tails h = cc

    heads : x ∷ xs ++ ys ≡ z ∷ zs ++ ws → x ≡ z
    heads h = cc

    tail_le : length (z ∷ zs) ≤ length (x ∷ xs) → length zs ≤ length xs
    tail_le h = omega arith

    cons_eq : (xs' : Bytes) → x ≡ z → xs ≡ zs ++ xs' → x ∷ xs ≡ z ∷ (zs ++ xs')
    cons_eq xs' h p = cc

length-send_message : (body : Bytes) → length (send_message body) ≡ 4 + length body
unfolding send_message write_number
length-send_message body =
    length-append (number_bytes 4 (length body)) body
    ∙ ap (λ (n : ℕ). n + length body) (length-number_bytes 4 (length body))

size_of_message :
    (body rest : Bytes)
    → IsSize (length body)
    → read_number 4 (send_message body ++ rest) ≡ some (length body, body ++ rest)
unfolding send_message
size_of_message body rest h =
    ap (read_number 4) (append_assoc (write_number 4 (length body)) body rest)
    ∙ (read_u32-Reads (length body) h).apply (body ++ rest)

can_read_longer : (n : ℕ) (d : Bytes) → n ≤ length d → can_read n d ≡ true
can_read_longer n d h = ground arith

can_read_shorter : (n : ℕ) (d : Bytes) → length d < n → can_read n d ≡ false
can_read_shorter n d h = ground arith

length-write_number : (n : ℕ) → length (write_number 4 n) ≡ 4
unfolding write_number
length-write_number n = length-number_bytes 4 n

-- A part of a message that is cut off.
IsIncomplete-prefix :
    (body ws xs ys : Bytes)
    → IsSize (length body)
    → xs ++ ys ≡ send_message body ++ ws
    → length xs < 4 + length body
    → IsIncomplete xs
unfolding send_message
IsIncomplete-prefix body ws xs ys size e l = elim (Bool-cases (can_read 4 xs)) [
  | inr cannot ↦ inl cannot
  | inl can ↦
      let header = write_number 4 (length body) in
      let (xs', p, q) =
        split_append header xs (body ++ ws) ys (e ∙ append_assoc header body ws) (header_le can) in
      inr (
        (length body, xs'),
        ap (read_number 4) p ∙ (read_u32-Reads (length body) size).apply xs',
        can_read_shorter (length body) xs' (shorter xs' (ap length p ∙ length-append header xs')),
      )
]
  where
    header_le : can_read 4 xs ≡ true → length (write_number 4 (length body)) ≤ length xs
    header_le can = ground (arith, can, length-write_number (length body))

    shorter :
        (xs' : Bytes)
        → length xs ≡ length (write_number 4 (length body)) + length xs'
        → length xs' < length body
    shorter xs' e' = omega (arith, length-write_number (length body))

IsIncomplete-complete :
    (body rest : Bytes) → IsSize (length body) → IsIncomplete (send_message body ++ rest) → ⊥
IsIncomplete-complete body rest size (inl h) =
    ground (arith, h, length-append (send_message body) rest, length-send_message body)
IsIncomplete-complete body rest size (inr (header, e, h)) = cannot (length-append body rest) (
    ap (λ (r : ℕ × Bytes). can_read r.0 r.1)
      (same_header (sym (size_of_message body rest size) ∙ e))
    ∙ h)
  where
    cannot :
        length (body ++ rest) ≡ length body + length rest
        → can_read (length body) (body ++ rest) ≡ false
        → ⊥
    cannot e k = ground (arith, e, k)

    same_header :
        ◌≡◌ {A = Option (ℕ × Bytes)} (some (length body, body ++ rest)) (some header)
        → (length body, body ++ rest) ≡ header
    same_header q = cc

-- The bytes of messages that are sent one after another.
abbrev pub stream_of : {A : Type 0} → (A → Bytes) → List A → Bytes
stream_of write = write_each (λ a. send_message (write a))

abbrev pub joined : List Bytes → Bytes
joined [] = []
joined (piece ∷ pieces) = piece ++ joined pieces

module _ {A : Type 0} (deserialize : Reader A) where
  -- What is read from pieces that are received one after another.
  unfoldable pub read_pieces : Bytes → List Bytes → List A × Bytes
  read_pieces buffer [] = ([], buffer)
  read_pieces buffer (piece ∷ pieces) =
      let r = read_messages deserialize buffer piece in
      let rest = read_pieces r.buffer pieces in (r.messages ++ rest.0, rest.1)

  read_loop_incomplete :
      (fuel : ℕ) (d : Bytes) → IsIncomplete d → read_loop fuel deserialize d ≡ received [] true d
  unfolding read_loop
  read_loop_incomplete zero d h = refl
  read_loop_incomplete (suc fuel) d (inl h) = rw h
  read_loop_incomplete (suc fuel) d (inr (header, e, h)) = elim (Bool-cases (can_read 4 d)) [
    | inl can ↦ rw (can, e, h)
    | inr cannot ↦ rw cannot
  ]

  read_loop_complete :
      (fuel size : ℕ) (d behind left : Bytes) (message : A)
      → read_number 4 d ≡ some (size, behind)
      → deserialize behind ≡ some (message, left)
      → can_read 4 d ≡ true
      → can_read size behind ≡ true
      → (length left + size == length behind) ≡ true
      → read_loop (suc fuel) deserialize d ≡ prepend message (read_loop fuel deserialize left)
  unfolding read_loop
  read_loop_complete fuel size d behind left message e m a b c = rw (a, e, b, m, c)

  read_loop_message :
      (fuel : ℕ) (body rest : Bytes) (message : A)
      → IsSize (length body)
      → Reads deserialize body message
      → read_loop (suc fuel) deserialize (send_message body ++ rest)
        ≡ prepend message (read_loop fuel deserialize rest)
  read_loop_message fuel body rest message size h =
      read_loop_complete fuel (length body) (send_message body ++ rest) (body ++ rest) rest message
        (size_of_message body rest size) (h.apply rest)
        (can_read_longer 4 (send_message body ++ rest)
          (omega (arith, length-append (send_message body) rest, length-send_message body)))
        (can_read_longer (length body) (body ++ rest) (omega (arith, length-append body rest)))
        (same (length-append body rest))
    where
      same :
          length (body ++ rest) ≡ length body + length rest
          → (length rest + length body == length (body ++ rest)) ≡ true
      same e = ground (arith, e)

module _ {A B : Type 0} (deserialize : Reader B) (write : A → Bytes) (f : A → B) (P : A → Type 0)
    (reads : (a : A) → P a → Reads deserialize (write a) (f a) × IsSize (length (write a))) where
  abbrev stream : List A → Bytes
  stream = stream_of write

  read_loop-stream :
      (ms : List A) (fuel : ℕ) (tail : Bytes)
      → All P ms
      → length (stream ms ++ tail) < fuel
      → IsIncomplete tail
      → read_loop fuel deserialize (stream ms ++ tail) ≡ received (map f ms) true tail
  unfolding write_each
  read_loop-stream [] fuel tail h l incomplete =
      read_loop_incomplete deserialize fuel tail incomplete
  read_loop-stream (m ∷ ms) zero tail h l incomplete = absurd (omega arith)
  read_loop-stream (m ∷ ms) (suc fuel) tail h l incomplete =
      ap (read_loop (suc fuel) deserialize) assoc
      ∙ read_loop_message deserialize fuel (write m) (stream ms ++ tail) (f m) (reads m h.0).1
          (reads m h.0).0
      ∙ ap (prepend (f m)) (
          read_loop-stream ms fuel tail h.1
            (omega (
              arith,
              ap length assoc,
              length-append (send_message (write m)) (stream ms ++ tail),
              length-send_message (write m),
            ))
            incomplete)
    where
      assoc :
          (send_message (write m) ++ stream ms) ++ tail
          ≡ send_message (write m) ++ (stream ms ++ tail)
      assoc = append_assoc (send_message (write m)) (stream ms) tail

  -- A stream is cut into complete messages, the begin of one, and what is left.
  record Cut (ms : List A) (xs ys : Bytes) : Type 0 where
    before : List A
    after : List A
    tail : Bytes
    front : xs ≡ stream before ++ tail
    incomplete : IsIncomplete tail
    left : tail ++ ys ≡ stream after
    all : before ++ after ≡ ms

  cut : (ms : List A) (xs ys : Bytes) → All P ms → xs ++ ys ≡ stream ms → Cut ms xs ys
  unfolding write_each
  cut [] xs ys h e = record {
    before = [];
    after = [];
    tail = xs;
    front = refl;
    incomplete = inl (no_bytes xs e);
    left = e;
    all = refl;
  }
    where
      no_bytes : (d : Bytes) → d ++ ys ≡ [] → can_read 4 d ≡ false
      no_bytes [] p = refl
      no_bytes (b ∷ d) p = cc
  cut (m ∷ ms) xs ys h e = elim (Bool-cases (leb (4 + length (write m)) (length xs))) [
    | inl whole ↦
        let (xs', p, q) =
          split_append (send_message (write m)) xs (stream ms) ys e
            (whole_le whole (length-send_message (write m))) in
        let c = cut ms xs' ys h.1 q in
        record {
          before = m ∷ c.before;
          after = c.after;
          tail = c.tail;
          front =
              p
              ∙ ap (λ (d : Bytes). send_message (write m) ++ d) c.front
              ∙ sym (append_assoc (send_message (write m)) (stream c.before) c.tail);
          incomplete = c.incomplete;
          left = c.left;
          all = ap (λ (l : List A). m ∷ l) c.all;
        }
    | inr part ↦ record {
      before = [];
      after = m ∷ ms;
      tail = xs;
      front = refl;
      incomplete = IsIncomplete-prefix (write m) (stream ms) xs ys (reads m h.0).1 e (part_lt part);
      left = e;
      all = refl;
    }
  ]
    where
      whole_le :
          leb (4 + length (write m)) (length xs) ≡ true
          → length (send_message (write m)) ≡ 4 + length (write m)
          → length (send_message (write m)) ≤ length xs
      whole_le w e' = ground (arith, w, e')

      part_lt : leb (4 + length (write m)) (length xs) ≡ false → length xs < 4 + length (write m)
      part_lt p = ground (arith, p)

  -- What has arrived is cut, and its complete messages are read.
  read_messages-Cut :
      (ms : List A) (buffer piece ys : Bytes)
      → All P ms
      → (c : Cut ms (buffer ++ piece) ys)
      → read_messages deserialize buffer piece ≡ received (map f c.before) true c.tail
  unfolding read_messages
  read_messages-Cut ms buffer piece ys h c = rw (
      ap (λ (d : Bytes). read_loop (suc (length d)) deserialize d) c.front
      ∙ read_loop-stream c.before (suc (length (stream c.before ++ c.tail))) c.tail
          (All-append_left c.before c.after (subst (All P) (sym c.all) h)) (omega arith)
          c.incomplete)
    where
      All-append_left : (xs ys : List A) → All P (xs ++ ys) → All P xs
      All-append_left [] ys k = tt
      All-append_left (x ∷ xs) ys k = (k.0, All-append_left xs ys k.1)

  nothing_left :
      (ms : List A) (buffer : Bytes)
      → All P ms
      → IsIncomplete buffer
      → buffer ≡ stream ms
      → (ms ≡ []) × (buffer ≡ [])
  unfolding write_each
  nothing_left [] buffer h incomplete e = (refl, e)
  nothing_left (m ∷ ms) buffer h incomplete e = absurd (
      IsIncomplete-complete (write m) (stream ms) (reads m h.0).1 (subst IsIncomplete e incomplete))

  -- Messages that are sent one after another arrive in this order and as often, however the stream of
  -- their bytes is cut into the pieces that are received, and no byte stays in the buffer. The messages
  -- are those that the deserializer reads from their bytes, behind which it leaves all others.
  pub read_pieces-stream :
      (ms : List A) (pieces : List Bytes) (buffer : Bytes)
      → All P ms
      → IsIncomplete buffer
      → buffer ++ joined pieces ≡ stream_of write ms
      → read_pieces deserialize buffer pieces ≡ (map f ms, [])
  unfolding read_pieces
  read_pieces-stream ms [] buffer h incomplete e =
      let (p, q) = nothing_left ms buffer h incomplete (sym (append-nil buffer) ∙ e) in rw (p, q)
  read_pieces-stream ms (piece ∷ pieces) buffer h incomplete e =
      let c =
        cut ms (buffer ++ piece) (joined pieces) h
          (append_assoc buffer piece (joined pieces) ∙ e) in
      rw
        (
          read_messages-Cut ms buffer piece (joined pieces) h c,
          read_pieces-stream c.after pieces c.tail
              (All-append_right c.before c.after (subst (All P) (sym c.all) h)) c.incomplete c.left,
        )
        (ap (λ (l : List B). (l, [])) (sym (map-append f c.before c.after) ∙ ap (map f) c.all))
    where
      All-append_right : (xs ys : List A) → All P (xs ++ ys) → All P ys
      All-append_right [] ys k = k
      All-append_right (x ∷ xs) ys k = All-append_right xs ys k.1
