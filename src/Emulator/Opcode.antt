-- ===== src/Emulator/Opcode.antt =====
-- Opcode fields (opcode.c) and bit tests (utils/bits.c).
pub mod Fields
use c_lang_examples.Prelude.{ℕ, ◌/◌, ◌^◌, bit_and, Bool, not, ◌==◌, if◌then◌else◌, u8}

unfoldable pub opcode_decode_address : ℕ → ℕ
opcode_decode_address opcode = bit_and opcode 0x0FFF

unfoldable pub opcode_decode_register_x : ℕ → ℕ
opcode_decode_register_x opcode = u8 (bit_and opcode 0x0F00 / 2 ^ 8)

unfoldable pub opcode_decode_register_y : ℕ → ℕ
opcode_decode_register_y opcode = u8 (bit_and opcode 0x00F0 / 2 ^ 4)

unfoldable pub opcode_decode_const_8bit : ℕ → ℕ
opcode_decode_const_8bit opcode = u8 (bit_and opcode 0x00FF)

unfoldable pub opcode_decode_const_4bit : ℕ → ℕ
opcode_decode_const_4bit opcode = u8 (bit_and opcode 0x000F)

-- `num & (1 << bit_order)`, as a test. The callers pass bit orders below 8, which `bit_is_set`
-- asserts.
unfoldable pub bit_is_set : ℕ → ℕ → Bool
bit_is_set num bit_order = not (bit_and num (2 ^ bit_order) == 0)

unfoldable pub bit_most_significant : ℕ → ℕ
unfolding bit_is_set
bit_most_significant num = if bit_is_set num 7 then 1 else 0

unfoldable pub bit_least_significant : ℕ → ℕ
unfolding bit_is_set
bit_least_significant num = if bit_is_set num 0 then 1 else 0
