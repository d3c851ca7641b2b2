-- ===== src/Scgi/Memory/Parts.antt =====
-- What the allocator has given, and what the reader of digits stores.
use native.Mathlib.Decide.{dec_lt}
use native.Mathlib.Nat.{mod-eq_of_lt}
use c_lang_examples.Prelude.{
  ℕ, suc, ◌+◌, ◌^◌, ◌≤◌, ◌<◌, ◌≡◌, refl, sym, ap, ◌∙◌, arith, true, false, ◌==◌, leb, lt→ltb,
  le→leb, lt→leb_false, le→ltb_false, Option, none, some, List, [], ◌∷◌, ◌++◌, length, set,
  write_at, u64, length-set, All, replicate, length-write_at,
}
use c_lang_examples.Prelude.Ended.{Ended, done}
use c_lang_examples.Scgi.Memory.{
  FixedBufferAllocator, fixed_buffer_allocator_malloc, fixed_buffer_allocator_calloc,
  BufferedReader, is_digit, digit_round, read_digits, buffered_reader_read_digits_until,
}

-- Parts of a buffer, the last first: each ends where the one before it begins, or further down.
abbrev pub Packed : ℕ → List (ℕ × ℕ) → Type 0
Packed top [] = Unit
Packed top ((start, size) ∷ parts) = (start + size ≤ top) × Packed start parts

-- The parts that are given lie one behind the other in the part of the buffer that is allocated.
pub record HasGiven (allocator : FixedBufferAllocator) (parts : List (ℕ × ℕ)) : Type 0 where
  pub packed : Packed allocator.allocated parts
  pub inside : allocator.allocated ≤ length allocator.buffer
  pub addressable : length allocator.buffer < 2 ^ 63

-- A part is given behind the others, in the buffer; or there is no room for it, and nothing changes.
pub data Gives (allocator : FixedBufferAllocator) (parts : List (ℕ × ℕ)) (size : ℕ)
    (call : Ended (Option ℕ × FixedBufferAllocator)) : Type 0 where
  given :
      (start : ℕ) (after : FixedBufferAllocator)
      → call ≡ done (some start, after)
      → HasGiven after ((start, size) ∷ parts)
      → length after.buffer ≡ length allocator.buffer
      → Gives allocator parts size call
  full :
      call ≡ done (none, allocator)
      → length allocator.buffer < allocator.allocated + size
      → Gives allocator parts size call

module _ (allocator : FixedBufferAllocator) (parts : List (ℕ × ℕ)) (size : ℕ)
    (has : HasGiven allocator parts) (positive : 0 < size) (small : size < 2 ^ 63) where
  long : u64 (allocator.allocated + size) ≡ allocator.allocated + size
  long = mod-eq_of_lt (omega (arith, has.inside, has.addressable))

  -- Where the parts that are given lie one behind the other in a buffer below 2^63 bytes, `malloc` of
  -- a size above zero and below 2^63 gives a part of the buffer behind them; or there is no room for
  -- it, and `malloc` returns NULL and changes nothing.
  pub fixed_buffer_allocator_malloc-Gives :
      Gives allocator parts size (fixed_buffer_allocator_malloc allocator size)
  unfolding fixed_buffer_allocator_malloc
  fixed_buffer_allocator_malloc-Gives =
      elim (dec_lt (length allocator.buffer) (allocator.allocated + size)) [
        | yes over ↦
            full
              (rw
                (
                  lt→ltb 0 size positive,
                  long,
                  lt→ltb (length allocator.buffer) (allocator.allocated + size) over,
                )
                refl)
              over
        | no under ↦
            given allocator.allocated (record allocator { allocated = allocator.allocated + size })
              (rw
                (
                  lt→ltb 0 size positive,
                  long,
                  le→ltb_false (length allocator.buffer) (allocator.allocated + size) (omega arith),
                  le→leb (allocator.allocated + size) (length allocator.buffer) (omega arith),
                )
                refl)
              (record {
                packed = (omega arith, has.packed);
                inside = omega arith;
                addressable = has.addressable;
              })
              refl
      ]

  -- So does `calloc`.
  pub fixed_buffer_allocator_calloc-Gives :
      Gives allocator parts size (fixed_buffer_allocator_calloc allocator size)
  unfolding fixed_buffer_allocator_calloc
  fixed_buffer_allocator_calloc-Gives = elim fixed_buffer_allocator_malloc-Gives [
    | given start after e h same ↦
        let kept : length (write_at after.buffer start (replicate size 0)) ≡ length after.buffer =
          length-write_at after.buffer start (replicate size 0) in
        given start (record after { buffer = write_at after.buffer start (replicate size 0) })
          (rw e refl)
          (record {
            packed = h.packed;
            inside = omega (arith, h.inside, kept);
            addressable = omega (arith, h.addressable, kept);
          })
          (kept ∙ same)
    | full e h ↦ full (rw e refl) h
  ]

read_digits-stored :
    (delim max_digits : ℕ) (digits rest : List ℕ) (reader : BufferedReader)
    → is_digit delim ≡ false
    → 0 < max_digits
    → All (λ c. is_digit c ≡ true) digits
    → reader.cursor + length digits < length reader.buffer
    → read_digits delim 0 max_digits (digits ++ delim ∷ rest) reader ≡ (
      0,
      record {
        input = rest;
        buffer = write_at reader.buffer reader.cursor digits;
        cursor = reader.cursor + length digits;
      },
    )
unfolding read_digits digit_round
read_digits-stored delim max_digits [] rest reader e h good k =
    let room : leb (length reader.buffer) reader.cursor ≡ false =
      lt→leb_false (length reader.buffer) reader.cursor (omega arith) in
    let same : (delim == delim) ≡ true = ground arith in
    let z : reader.cursor + 0 ≡ reader.cursor = omega arith in
    rw (read_digits, room, digit_round, same, z) refl
read_digits-stored delim max_digits (c ∷ digits) rest reader e h good k =
    let room : leb (length reader.buffer) reader.cursor ≡ false =
      lt→leb_false (length reader.buffer) reader.cursor (omega arith) in
    let other : (c == delim) ≡ false = (let g = good.0 in ground (arith, g, e)) in
    let next : reader.cursor + 1 + length digits ≡ reader.cursor + suc (length digits) =
      omega arith in
    let one : suc reader.cursor ≡ reader.cursor + 1 = omega arith in
    rw (read_digits, room, digit_round, other, good.0, lt→leb_false max_digits 0 h, sym next, one)
      (read_digits-stored delim max_digits digits rest
        (record {
          input = digits ++ delim ∷ rest;
          buffer = set reader.buffer reader.cursor c;
          cursor = reader.cursor + 1;
        })
        e h good.1 (omega (arith, k, length-set reader.buffer reader.cursor c)))

-- Digits with the delimiter, no digit, behind them are all stored in the buffer, and 0 is returned,
-- however many more they are than a greatest number of digits above zero, if the buffer has room for
-- them and one byte more.
pub buffered_reader_read_digits_until-stored :
    (reader : BufferedReader) (delim max_digits : ℕ) (digits rest : List ℕ)
    → is_digit delim ≡ false
    → 0 < max_digits
    → All (λ c. is_digit c ≡ true) digits
    → reader.cursor + length digits < length reader.buffer
    → reader.input ≡ digits ++ delim ∷ rest
    → buffered_reader_read_digits_until reader delim max_digits
      ≡ done (
        0,
        record {
          input = rest;
          buffer = write_at reader.buffer reader.cursor digits;
          cursor = reader.cursor + length digits;
        },
      )
unfolding buffered_reader_read_digits_until
buffered_reader_read_digits_until-stored reader delim max_digits digits rest e h good k input =
    rw e (
      ap done (
        ap (λ text. read_digits delim 0 max_digits text reader) input
        ∙ read_digits-stored delim max_digits digits rest reader e h good k))
