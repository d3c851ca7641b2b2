-- ===== src/Scgi/Memory.antt =====
-- The allocator that gives parts of one buffer, and the reader of digits (mem.c, mem.h). A pointer
-- into the buffer is its offset, and the null pointer is `none`. What arrives at the socket is a list
-- of bytes, behind which `recv_char` fails; the messages are not modelled.
pub mod Parts
use c_lang_examples.Prelude.{
  ℕ, zero, suc, ◌+◌, ◌-◌, ◌%◌, ◌^◌, Bool, true, false, not, ◌&&◌, ◌==◌, leb, ltb, if◌then◌else◌,
  Option, none, some, List, [], ◌∷◌, ◌++◌, length, set, replicate, write_at, u64,
}
use c_lang_examples.Prelude.Ended.{Ended, done, aborted, ◌>>=◌}

pub record FixedBufferAllocator : Type 0 where
  pub buffer : List ℕ
  pub allocated : ℕ

unfoldable pub fixed_buffer_allocator_from_buffer : List ℕ → Ended FixedBufferAllocator
fixed_buffer_allocator_from_buffer buffer =
    if ltb 0 (length buffer) then done (record { buffer = buffer; allocated = 0 }) else aborted

unfoldable pub fixed_buffer_allocator_from_slice : List ℕ → FixedBufferAllocator
fixed_buffer_allocator_from_slice slice = record { buffer = slice; allocated = 0 }

unfoldable pub fixed_buffer_allocator_malloc :
    FixedBufferAllocator → ℕ → Ended (Option ℕ × FixedBufferAllocator)
fixed_buffer_allocator_malloc allocator size =
    if ltb 0 size
    then if ltb (length allocator.buffer) (u64 (allocator.allocated + size))
      then done (none, allocator)
      else if leb (u64 (allocator.allocated + size)) (length allocator.buffer)
      then done (
        some allocator.allocated,
        record allocator { allocated = u64 (allocator.allocated + size) },
      )
      else aborted
    else aborted

unfoldable pub fixed_buffer_allocator_calloc :
    FixedBufferAllocator → ℕ → Ended (Option ℕ × FixedBufferAllocator)
fixed_buffer_allocator_calloc allocator size = do
  given ← fixed_buffer_allocator_malloc allocator size
  elim given.0 [
    | none ↦ done (none, given.1)
    | some ptr ↦
        done
          (some ptr, record (given.1) { buffer = write_at (given.1).buffer ptr (replicate size 0) })
  ]

pub record BufferedReader : Type 0 where
  pub input : List ℕ
  pub buffer : List ℕ
  pub cursor : ℕ

unfoldable pub buffered_reader_init : List ℕ → List ℕ → Ended BufferedReader
buffered_reader_init input buffer =
    if ltb 0 (length buffer)
    then done (record { input = input; buffer = buffer; cursor = 0 })
    else aborted

-- `isdigit`
abbrev pub is_digit : ℕ → Bool
is_digit c = leb b'0' c && leb c b'9'

-- How a round of the loop ends.
pub data Digit : Type 0 where
  stored : BufferedReader → Digit
  returns : ℕ → BufferedReader → Digit

-- A round with the byte `c` of the input, behind which `rest` arrives.
unfoldable pub digit_round : ℕ → ℕ → ℕ → ℕ → List ℕ → BufferedReader → Digit
digit_round delim digits_count max_digits c rest reader =
    let read = record reader { input = rest } in
    if c == delim
    then returns 0 read
    else if not (is_digit c)
    then returns 1 read
    else if leb max_digits digits_count
    then returns 1 read
    else stored (record read { buffer = set read.buffer read.cursor c; cursor = read.cursor + 1 })

-- The loop, on the input; the count of digits is passed on as it is, for the loop does not change it.
unfoldable pub read_digits : ℕ → ℕ → ℕ → List ℕ → BufferedReader → ℕ × BufferedReader
read_digits delim digits_count max_digits [] reader = (1, reader)
read_digits delim digits_count max_digits (c ∷ rest) reader =
    elim (leb (length reader.buffer) reader.cursor) [
      | true ↦ (1, reader)
      | false ↦ elim (digit_round delim digits_count max_digits c rest reader) [
        | stored next ↦ read_digits delim digits_count max_digits rest next
        | returns code last ↦ (code, last)
      ]
    ]

unfoldable pub buffered_reader_read_digits_until :
    BufferedReader → ℕ → ℕ → Ended (ℕ × BufferedReader)
buffered_reader_read_digits_until reader delim max_digits =
    if is_digit delim then aborted else done (read_digits delim 0 max_digits reader.input reader)
