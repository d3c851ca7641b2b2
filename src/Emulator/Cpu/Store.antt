-- ===== src/Emulator/Cpu/Store.antt =====
-- The instructions on the address register I and on the memory behind it (Annn, Fx1E, Fx29, Fx33,
-- Fx55, Fx65).
use c_lang_examples.Prelude.{ℕ, zero, suc, ◌+◌, ◌/◌, ◌%◌, u8, u16}
use c_lang_examples.Emulator.Opcode.{opcode_decode_address, opcode_decode_register_x}
use c_lang_examples.Emulator.Memory.{memory_address_from_sprite_value}
use c_lang_examples.Emulator.Machine.{
  Exec, ◌>>=◌, ◌>>◌, gets, skip, read_register, write_register, read_memory, write_memory, set_i,
}

unfoldable pub exec_set_i_register : ℕ → Exec (Unit {0})
exec_set_i_register opcode = set_i (opcode_decode_address opcode)

unfoldable pub exec_add_vx_to_i : ℕ → Exec (Unit {0})
exec_add_vx_to_i opcode = do
  vx ← read_register (opcode_decode_register_x opcode)
  i ← gets (λ m. m.cpu.i)
  set_i (i + vx)

unfoldable pub exec_set_i_to_sprite_addr : ℕ → Exec (Unit {0})
exec_set_i_to_sprite_addr opcode = do
  sprite_value ← read_register (opcode_decode_register_x opcode)
  set_i (memory_address_from_sprite_value sprite_value)

unfoldable pub exec_set_bcd : ℕ → Exec (Unit {0})
exec_set_bcd opcode = do
  vx ← read_register (opcode_decode_register_x opcode)
  let hundreds = u8 (vx % 1000 / 100)
  let tens = u8 (vx % 100 / 10)
  let ones = u8 (vx % 10 / 1)
  i ← gets (λ m. m.cpu.i)
  write_memory i hundreds
  write_memory (i + 1) tens
  write_memory (i + 2) ones

-- The loop of `exec_reg_dump` at register `i`, with `rounds` registers left.
unfoldable pub reg_dump_from : ℕ → ℕ → ℕ → Exec (Unit {0})
reg_dump_from zero i addr = skip
reg_dump_from (suc rounds) i addr = do
  vi ← read_register i
  write_memory addr vi
  reg_dump_from rounds (i + 1) (u16 (addr + 1))

unfoldable pub exec_reg_dump : ℕ → Exec (Unit {0})
unfolding reg_dump_from
exec_reg_dump opcode = do
  addr ← gets (λ m. m.cpu.i)
  reg_dump_from (opcode_decode_register_x opcode + 1) 0 addr

-- The loop of `exec_reg_load` at register `i`, with `rounds` registers left.
unfoldable pub reg_load_from : ℕ → ℕ → ℕ → Exec (Unit {0})
reg_load_from zero i addr = skip
reg_load_from (suc rounds) i addr = do
  byte ← read_memory addr
  write_register i byte
  reg_load_from rounds (i + 1) (u16 (addr + 1))

unfoldable pub exec_reg_load : ℕ → Exec (Unit {0})
unfolding reg_load_from
exec_reg_load opcode = do
  addr ← gets (λ m. m.cpu.i)
  reg_load_from (opcode_decode_register_x opcode + 1) 0 addr
