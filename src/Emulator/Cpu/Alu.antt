-- ===== src/Emulator/Cpu/Alu.antt =====
-- The instructions that compute on the registers (6xkk, 7xkk, 8xyn, Cxkk). `write_register`
-- converts what is stored to `uint8_t`; 256 is added before a subtraction, since `-` stops at 0.
use c_lang_examples.Prelude.{
  ℕ, ◌+◌, ◌-◌, ◌*◌, ◌/◌, ◌%◌, bit_and, bit_or, bit_xor, Bool, ◌||◌, ltb, ◌==◌, if◌then◌else◌,
}
use c_lang_examples.Emulator.Opcode.{
  opcode_decode_register_x, opcode_decode_register_y, opcode_decode_const_8bit, bit_is_set,
}
use c_lang_examples.Emulator.Machine.{
  Exec, vf_operand, ◌>>=◌, ◌>>◌, halt, skip, vf, read_register, write_register,
}

unfoldable pub exec_set_register : ℕ → Exec (Unit {0})
exec_set_register opcode =
    write_register (opcode_decode_register_x opcode) (opcode_decode_const_8bit opcode)

unfoldable pub exec_add_to_vx : ℕ → Exec (Unit {0})
exec_add_to_vx opcode = do
  let x = opcode_decode_register_x opcode
  vx ← read_register x
  write_register x (vx + opcode_decode_const_8bit opcode)

unfoldable pub exec_set_vx_from_vy : ℕ → Exec (Unit {0})
exec_set_vx_from_vy opcode = do
  vy ← read_register (opcode_decode_register_y opcode)
  write_register (opcode_decode_register_x opcode) vy

-- `registers[x] = f(registers[x], registers[y])`, for the three bitwise assignments.
unfoldable pub assign_vx : (ℕ → ℕ → ℕ) → ℕ → Exec (Unit {0})
assign_vx f opcode = do
  let x = opcode_decode_register_x opcode
  vx ← read_register x
  vy ← read_register (opcode_decode_register_y opcode)
  write_register x (f vx vy)

unfoldable pub exec_set_vx_to_vx_or : ℕ → Exec (Unit {0})
unfolding assign_vx
exec_set_vx_to_vx_or = assign_vx bit_or

unfoldable pub exec_set_vx_to_vx_and : ℕ → Exec (Unit {0})
unfolding assign_vx
exec_set_vx_to_vx_and = assign_vx bit_and

unfoldable pub exec_set_vx_to_vx_xor : ℕ → Exec (Unit {0})
unfolding assign_vx
exec_set_vx_to_vx_xor = assign_vx bit_xor

-- The fatal log record that stops the program where an operand is VF.
abbrev pub refuse_vf : Bool → Exec (Unit {0})
refuse_vf test = if test then halt vf_operand else skip

unfoldable pub exec_vx_plus_vy : ℕ → Exec (Unit {0})
exec_vx_plus_vy opcode = do
  let x = opcode_decode_register_x opcode
  let y = opcode_decode_register_y opcode
  refuse_vf (x == vf || y == vf)
  vx ← read_register x
  vy ← read_register y
  let sum = vx + vy
  write_register vf (if ltb 255 sum then 0x01 else 0x00)
  write_register x sum

unfoldable pub exec_vx_minus_vy : ℕ → Exec (Unit {0})
exec_vx_minus_vy opcode = do
  let x = opcode_decode_register_x opcode
  let y = opcode_decode_register_y opcode
  refuse_vf (x == vf || y == vf)
  vx ← read_register x
  vy ← read_register y
  write_register vf (if ltb vy vx then 0x01 else 0x00)
  vx' ← read_register x
  vy' ← read_register y
  write_register x (vx' + 256 - vy')

unfoldable pub exec_set_vx_rshift_one : ℕ → Exec (Unit {0})
exec_set_vx_rshift_one opcode = do
  let x = opcode_decode_register_x opcode
  refuse_vf (x == vf)
  vx ← read_register x
  write_register vf (if bit_is_set vx 0 then 0x01 else 0x00)
  vx' ← read_register x
  write_register x (vx' / 2)

unfoldable pub exec_set_vx_vy_minus_vx : ℕ → Exec (Unit {0})
exec_set_vx_vy_minus_vx opcode = do
  let x = opcode_decode_register_x opcode
  let y = opcode_decode_register_y opcode
  refuse_vf (x == vf || y == vf)
  vx ← read_register x
  vy ← read_register y
  write_register vf (if ltb vx vy then 0x01 else 0x00)
  vx' ← read_register x
  vy' ← read_register y
  write_register x (vy' + 256 - vx')

unfoldable pub exec_set_vx_lshift_one : ℕ → Exec (Unit {0})
exec_set_vx_lshift_one opcode = do
  let x = opcode_decode_register_x opcode
  refuse_vf (x == vf)
  vx ← read_register x
  write_register vf (if bit_is_set vx 7 then 0x01 else 0x00)
  vx' ← read_register x
  write_register x (vx' * 2)

-- `random_u8`: `rand()`, whose result is an argument, never negative, modulo 256.
unfoldable pub random_u8 : ℕ → ℕ
random_u8 rand = rand % (255 + 1)

unfoldable pub exec_set_vx_rand_and : ℕ → ℕ → Exec (Unit {0})
unfolding random_u8
exec_set_vx_rand_and rand opcode =
    write_register (opcode_decode_register_x opcode)
      (bit_and (random_u8 rand) (opcode_decode_const_8bit opcode))
