-- ===== src/Emulator/Cpu/Step.antt =====
-- Decoding and executing one instruction, and the initial processor.
use c_lang_examples.Prelude.{ℕ, bit_and, leb, ◌==◌, if◌then◌else◌, replicate}
use c_lang_examples.Emulator.Memory.{memory_size, memory_program_starting_address}
use c_lang_examples.Emulator.Keyboard.{KeyboardState}
use c_lang_examples.Emulator.Machine.{
  Cpu, Exec, pc_overflow, zero_opcode, unsupported_opcode, ◌>>=◌, ◌>>◌, halt, gets, skip,
  register_count, stack_capacity,
}
use c_lang_examples.Emulator.Cpu.Flow.{
  fetch_opcode, cpu_pc_advance, exec_return, exec_call, exec_goto, exec_call_subroutine,
  exec_if_equals, exec_if_not_equals, exec_skip_next_if_vx_equals_vy, exec_if_vx_not_equals_to_vy,
  exec_jump_to_addr_plus_v0,
}
use c_lang_examples.Emulator.Cpu.Alu.{
  exec_set_register, exec_add_to_vx, exec_set_vx_from_vy, exec_set_vx_to_vx_or,
  exec_set_vx_to_vx_and, exec_set_vx_to_vx_xor, exec_vx_plus_vy, exec_vx_minus_vy,
  exec_set_vx_rshift_one, exec_set_vx_vy_minus_vx, exec_set_vx_lshift_one, exec_set_vx_rand_and,
}
use c_lang_examples.Emulator.Cpu.Store.{
  exec_set_i_register, exec_add_vx_to_i, exec_set_i_to_sprite_addr, exec_set_bcd, exec_reg_dump,
  exec_reg_load,
}
use c_lang_examples.Emulator.Cpu.Io.{
  exec_display_clear, exec_display_draw_sprite_at, exec_if_key_equals_to_vx,
  exec_if_key_not_equals_to_vx, exec_set_vx_from_delay_timer, exec_set_vx_from_key,
  exec_set_delay_timer_from_vx, exec_set_sound_timer,
}

-- What a step reads of the world: the result of `rand()` and the keyboard.
pub record Env : Type 0 where
  pub rand : ℕ
  pub keyboard_state : KeyboardState

unfoldable pub cpu_decode_and_exec_opcode : Env → ℕ → Exec (Unit {0})
cpu_decode_and_exec_opcode env opcode =
    if opcode == 0x00E0
    then exec_display_clear opcode
    else if opcode == 0x00EE
    then exec_return opcode
    else if bit_and opcode 0xF000 == 0x0000
    then exec_call opcode
    else if bit_and opcode 0xF000 == 0x1000
    then exec_goto opcode
    else if bit_and opcode 0xF000 == 0x2000
    then exec_call_subroutine opcode
    else if bit_and opcode 0xF000 == 0x3000
    then exec_if_equals opcode
    else if bit_and opcode 0xF000 == 0x4000
    then exec_if_not_equals opcode
    else if bit_and opcode 0xF00F == 0x5000
    then exec_skip_next_if_vx_equals_vy opcode
    else if bit_and opcode 0xF000 == 0x6000
    then exec_set_register opcode
    else if bit_and opcode 0xF000 == 0x7000
    then exec_add_to_vx opcode
    else if bit_and opcode 0xF00F == 0x8000
    then exec_set_vx_from_vy opcode
    else if bit_and opcode 0xF00F == 0x8001
    then exec_set_vx_to_vx_or opcode
    else if bit_and opcode 0xF00F == 0x8002
    then exec_set_vx_to_vx_and opcode
    else if bit_and opcode 0xF00F == 0x8003
    then exec_set_vx_to_vx_xor opcode
    else if bit_and opcode 0xF00F == 0x8004
    then exec_vx_plus_vy opcode
    else if bit_and opcode 0xF00F == 0x8005
    then exec_vx_minus_vy opcode
    else if bit_and opcode 0xF00F == 0x8006
    then exec_set_vx_rshift_one opcode
    else if bit_and opcode 0xF00F == 0x8007
    then exec_set_vx_vy_minus_vx opcode
    else if bit_and opcode 0xF00F == 0x800E
    then exec_set_vx_lshift_one opcode
    else if bit_and opcode 0xF00F == 0x9000
    then exec_if_vx_not_equals_to_vy opcode
    else if bit_and opcode 0xF000 == 0xA000
    then exec_set_i_register opcode
    else if bit_and opcode 0xF000 == 0xB000
    then exec_jump_to_addr_plus_v0 opcode
    else if bit_and opcode 0xF000 == 0xC000
    then exec_set_vx_rand_and env.rand opcode
    else if bit_and opcode 0xF000 == 0xD000
    then exec_display_draw_sprite_at opcode
    else if bit_and opcode 0xF0FF == 0xE09E
    then exec_if_key_equals_to_vx env.keyboard_state opcode
    else if bit_and opcode 0xF0FF == 0xE0A1
    then exec_if_key_not_equals_to_vx env.keyboard_state opcode
    else if bit_and opcode 0xF0FF == 0xF007
    then exec_set_vx_from_delay_timer opcode
    else if bit_and opcode 0xF0FF == 0xF00A
    then exec_set_vx_from_key env.keyboard_state opcode
    else if bit_and opcode 0xF0FF == 0xF015
    then exec_set_delay_timer_from_vx opcode
    else if bit_and opcode 0xF0FF == 0xF018
    then exec_set_sound_timer opcode
    else if bit_and opcode 0xF0FF == 0xF01E
    then exec_add_vx_to_i opcode
    else if bit_and opcode 0xF0FF == 0xF029
    then exec_set_i_to_sprite_addr opcode
    else if bit_and opcode 0xF0FF == 0xF033
    then exec_set_bcd opcode
    else if bit_and opcode 0xF0FF == 0xF055
    then exec_reg_dump opcode
    else if bit_and opcode 0xF0FF == 0xF065
    then exec_reg_load opcode
    else halt unsupported_opcode

-- The printing to `stderr` is left out.
unfoldable pub cpu_step : Env → Exec (Unit {0})
cpu_step env = do
  pc ← gets (λ m. m.cpu.pc)
  if leb memory_size pc then halt pc_overflow else skip
  opcode ← fetch_opcode
  if opcode == 0 then halt zero_opcode else skip
  cpu_pc_advance
  cpu_decode_and_exec_opcode env opcode

unfoldable pub cpu_init : Cpu
cpu_init = record {
  registers = replicate register_count 0;
  pc = memory_program_starting_address;
  i = memory_program_starting_address;
  stack = replicate stack_capacity 0;
  stack_count = 0;
}
