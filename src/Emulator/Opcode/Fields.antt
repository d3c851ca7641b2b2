-- ===== src/Emulator/Opcode/Fields.antt =====
-- The opcode fields as digits of the opcode, and the bit tests as digits of the byte.
use native.Mathlib.Nat.{one-le-pow}
use c_lang_examples.Prelude.{
  ℕ, zero, suc, ◌+◌, ◌*◌, ◌/◌, ◌%◌, ◌^◌, ◌≤◌, ◌<◌, ◌≡◌, not, ◌==◌, arith, IsU16, bit_and_shifted,
  bit_and_nibble, bit_and_byte, bit_and_12bit, bit_and_pow,
}
use c_lang_examples.Emulator.Opcode.{
  opcode_decode_address, opcode_decode_register_x, opcode_decode_register_y,
  opcode_decode_const_8bit, opcode_decode_const_4bit, bit_is_set,
}

pub opcode_decode_address_lem : (opcode : ℕ) → opcode_decode_address opcode ≡ opcode % 4096
unfolding opcode_decode_address
opcode_decode_address_lem opcode = bit_and_12bit opcode

pub opcode_decode_register_x_lem :
    (opcode : ℕ) → opcode_decode_register_x opcode ≡ opcode / 256 % 16
unfolding opcode_decode_register_x
opcode_decode_register_x_lem opcode =
    omega (arith, bit_and_shifted 8 opcode 15, bit_and_nibble (opcode / 256))

pub opcode_decode_register_y_lem : (opcode : ℕ) → opcode_decode_register_y opcode ≡ opcode / 16 % 16
unfolding opcode_decode_register_y
opcode_decode_register_y_lem opcode =
    omega (arith, bit_and_shifted 4 opcode 15, bit_and_nibble (opcode / 16))

pub opcode_decode_const_8bit_lem : (opcode : ℕ) → opcode_decode_const_8bit opcode ≡ opcode % 256
unfolding opcode_decode_const_8bit
opcode_decode_const_8bit_lem opcode = omega (arith, bit_and_byte opcode)

pub opcode_decode_const_4bit_lem : (opcode : ℕ) → opcode_decode_const_4bit opcode ≡ opcode % 16
unfolding opcode_decode_const_4bit
opcode_decode_const_4bit_lem opcode = omega (arith, bit_and_nibble opcode)

pub opcode_decode_register_x-lt : (opcode : ℕ) → opcode_decode_register_x opcode < 16
opcode_decode_register_x-lt opcode = omega (arith, opcode_decode_register_x_lem opcode)

pub opcode_decode_register_y-lt : (opcode : ℕ) → opcode_decode_register_y opcode < 16
opcode_decode_register_y-lt opcode = omega (arith, opcode_decode_register_y_lem opcode)

-- A 16-bit opcode is its leading digit followed by its fields, read either as an address or as two
-- registers and a constant.
pub opcode_from_fields :
    (opcode : ℕ)
    → IsU16 opcode
    → (opcode ≡ opcode / 4096 * 4096 + opcode_decode_address opcode)
      × (opcode_decode_address opcode
          ≡ opcode_decode_register_x opcode * 256 + opcode_decode_const_8bit opcode)
      × (opcode_decode_const_8bit opcode
          ≡ opcode_decode_register_y opcode * 16 + opcode_decode_const_4bit opcode)
opcode_from_fields opcode h = omega (
  arith,
  opcode_decode_address_lem opcode,
  opcode_decode_register_x_lem opcode,
  opcode_decode_register_y_lem opcode,
  opcode_decode_const_8bit_lem opcode,
  opcode_decode_const_4bit_lem opcode,
)

digit_test : (d p : ℕ) → d < 2 → 1 ≤ p → not (d * p == 0) ≡ (d == 1)
digit_test zero p h q = ground arith
digit_test (suc zero) p h q = ground arith
digit_test (suc (suc d)) p h q = absurd (omega arith)

-- The bit test reads the binary digit of that order.
pub bit_is_set_lem : (num k : ℕ) → bit_is_set num k ≡ (num / 2 ^ k % 2 == 1)
unfolding bit_is_set
bit_is_set_lem num k =
    rw (bit_and_pow k num)
      (digit_test (num / 2 ^ k % 2) (2 ^ k) (omega arith) (one-le-pow k 2 (omega arith)))
