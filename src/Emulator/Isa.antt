-- ===== src/Emulator/Isa.antt =====
-- The instruction set, by the digits of the opcode, after the table in the comments of cpu.c, and
-- what the interpreter and the disassembler do with each instruction.
pub mod Decode
use c_lang_examples.Prelude.{ℕ, ◌/◌, ◌%◌, ◌<◌, ◌≡◌, ◌≢◌, List}
use c_lang_examples.Emulator.Machine.{Exec}
use c_lang_examples.Emulator.Cpu.Flow.{
  exec_return, exec_call, exec_goto, exec_call_subroutine, exec_if_equals, exec_if_not_equals,
  exec_skip_next_if_vx_equals_vy, exec_if_vx_not_equals_to_vy, exec_jump_to_addr_plus_v0,
}
use c_lang_examples.Emulator.Cpu.Alu.{
  exec_set_register, exec_add_to_vx, exec_set_vx_from_vy, exec_set_vx_to_vx_or,
  exec_set_vx_to_vx_and, exec_set_vx_to_vx_xor, exec_vx_plus_vy, exec_vx_minus_vy,
  exec_set_vx_rshift_one, exec_set_vx_vy_minus_vx, exec_set_vx_lshift_one, exec_set_vx_rand_and,
}
use c_lang_examples.Emulator.Cpu.Store.{
  exec_set_i_register, exec_add_vx_to_i, exec_set_i_to_sprite_addr, exec_set_bcd, exec_reg_dump,
  exec_reg_load,
}
use c_lang_examples.Emulator.Cpu.Io.{
  exec_display_clear, exec_display_draw_sprite_at, exec_if_key_equals_to_vx,
  exec_if_key_not_equals_to_vx, exec_set_vx_from_delay_timer, exec_set_vx_from_key,
  exec_set_delay_timer_from_vx, exec_set_sound_timer,
}
use c_lang_examples.Emulator.Cpu.Step.{Env}
use c_lang_examples.Emulator.Disassembler.{
  Piece, disassemble_display_clear, disassemble_return, disassemble_call, disassemble_goto,
  disassemble_call_subroutine, disassemble_if_equals, disassemble_if_not_equals,
  disassemble_skip_next_if_vx_equals_vy, disassemble_set_register, disassemble_add_to_vx,
  disassemble_set_vx_from_vy, disassemble_set_vx_to_vx_or, disassemble_set_vx_to_vx_and,
  disassemble_set_vx_to_vx_xor, disassemble_vx_plus_vy, disassemble_vx_minus_vy,
  disassemble_set_vx_rshift_one, disassemble_set_vx_vy_minus_vx, disassemble_set_vx_lshift_one,
  disassemble_if_vx_not_equals_to_vy, disassemble_set_i_register, disassemble_jump_to_addr_plus_v0,
  disassemble_set_vx_rand_and, disassemble_display_draw_sprite_at, disassemble_if_key_equals_to_vx,
  disassemble_if_key_not_equals_to_vx, disassemble_set_vx_from_delay_timer,
  disassemble_set_vx_from_key, disassemble_set_delay_timer_from_vx, disassemble_set_sound_timer,
  disassemble_add_vx_to_i, disassemble_set_i_to_sprite_addr, disassemble_set_bcd,
  disassemble_reg_dump, disassemble_reg_load,
}

pub data Instruction : Type 0 where
  cls ret sys jp call se_byte sne_byte se_register ld_byte add_byte ld_register or and xor add sub
        shr subn shl sne_register ld_i jp_v0 rnd drw skp sknp ld_from_delay ld_key ld_delay ld_sound
        add_i ld_font ld_bcd ld_dump ld_load :
      Instruction

-- The opcodes of an instruction: 1nnn, 5xy0, Fx07 and so on.
abbrev pub Matches : Instruction → ℕ → Type 0
Matches cls opcode = opcode ≡ 0x00E0
Matches ret opcode = opcode ≡ 0x00EE
Matches sys opcode = (opcode < 0x1000) × (opcode ≢ 0x00E0) × (opcode ≢ 0x00EE)
Matches jp opcode = opcode / 4096 ≡ 1
Matches call opcode = opcode / 4096 ≡ 2
Matches se_byte opcode = opcode / 4096 ≡ 3
Matches sne_byte opcode = opcode / 4096 ≡ 4
Matches se_register opcode = (opcode / 4096 ≡ 5) × (opcode % 16 ≡ 0)
Matches ld_byte opcode = opcode / 4096 ≡ 6
Matches add_byte opcode = opcode / 4096 ≡ 7
Matches ld_register opcode = (opcode / 4096 ≡ 8) × (opcode % 16 ≡ 0)
Matches or opcode = (opcode / 4096 ≡ 8) × (opcode % 16 ≡ 1)
Matches and opcode = (opcode / 4096 ≡ 8) × (opcode % 16 ≡ 2)
Matches xor opcode = (opcode / 4096 ≡ 8) × (opcode % 16 ≡ 3)
Matches add opcode = (opcode / 4096 ≡ 8) × (opcode % 16 ≡ 4)
Matches sub opcode = (opcode / 4096 ≡ 8) × (opcode % 16 ≡ 5)
Matches shr opcode = (opcode / 4096 ≡ 8) × (opcode % 16 ≡ 6)
Matches subn opcode = (opcode / 4096 ≡ 8) × (opcode % 16 ≡ 7)
Matches shl opcode = (opcode / 4096 ≡ 8) × (opcode % 16 ≡ 14)
Matches sne_register opcode = (opcode / 4096 ≡ 9) × (opcode % 16 ≡ 0)
Matches ld_i opcode = opcode / 4096 ≡ 10
Matches jp_v0 opcode = opcode / 4096 ≡ 11
Matches rnd opcode = opcode / 4096 ≡ 12
Matches drw opcode = opcode / 4096 ≡ 13
Matches skp opcode = (opcode / 4096 ≡ 14) × (opcode % 256 ≡ 0x9E)
Matches sknp opcode = (opcode / 4096 ≡ 14) × (opcode % 256 ≡ 0xA1)
Matches ld_from_delay opcode = (opcode / 4096 ≡ 15) × (opcode % 256 ≡ 0x07)
Matches ld_key opcode = (opcode / 4096 ≡ 15) × (opcode % 256 ≡ 0x0A)
Matches ld_delay opcode = (opcode / 4096 ≡ 15) × (opcode % 256 ≡ 0x15)
Matches ld_sound opcode = (opcode / 4096 ≡ 15) × (opcode % 256 ≡ 0x18)
Matches add_i opcode = (opcode / 4096 ≡ 15) × (opcode % 256 ≡ 0x1E)
Matches ld_font opcode = (opcode / 4096 ≡ 15) × (opcode % 256 ≡ 0x29)
Matches ld_bcd opcode = (opcode / 4096 ≡ 15) × (opcode % 256 ≡ 0x33)
Matches ld_dump opcode = (opcode / 4096 ≡ 15) × (opcode % 256 ≡ 0x55)
Matches ld_load opcode = (opcode / 4096 ≡ 15) × (opcode % 256 ≡ 0x65)

abbrev pub execute : Env → Instruction → ℕ → Exec (Unit {0})
execute env cls opcode = exec_display_clear opcode
execute env ret opcode = exec_return opcode
execute env sys opcode = exec_call opcode
execute env jp opcode = exec_goto opcode
execute env call opcode = exec_call_subroutine opcode
execute env se_byte opcode = exec_if_equals opcode
execute env sne_byte opcode = exec_if_not_equals opcode
execute env se_register opcode = exec_skip_next_if_vx_equals_vy opcode
execute env ld_byte opcode = exec_set_register opcode
execute env add_byte opcode = exec_add_to_vx opcode
execute env ld_register opcode = exec_set_vx_from_vy opcode
execute env or opcode = exec_set_vx_to_vx_or opcode
execute env and opcode = exec_set_vx_to_vx_and opcode
execute env xor opcode = exec_set_vx_to_vx_xor opcode
execute env add opcode = exec_vx_plus_vy opcode
execute env sub opcode = exec_vx_minus_vy opcode
execute env shr opcode = exec_set_vx_rshift_one opcode
execute env subn opcode = exec_set_vx_vy_minus_vx opcode
execute env shl opcode = exec_set_vx_lshift_one opcode
execute env sne_register opcode = exec_if_vx_not_equals_to_vy opcode
execute env ld_i opcode = exec_set_i_register opcode
execute env jp_v0 opcode = exec_jump_to_addr_plus_v0 opcode
execute env rnd opcode = exec_set_vx_rand_and env.rand opcode
execute env drw opcode = exec_display_draw_sprite_at opcode
execute env skp opcode = exec_if_key_equals_to_vx env.keyboard_state opcode
execute env sknp opcode = exec_if_key_not_equals_to_vx env.keyboard_state opcode
execute env ld_from_delay opcode = exec_set_vx_from_delay_timer opcode
execute env ld_key opcode = exec_set_vx_from_key env.keyboard_state opcode
execute env ld_delay opcode = exec_set_delay_timer_from_vx opcode
execute env ld_sound opcode = exec_set_sound_timer opcode
execute env add_i opcode = exec_add_vx_to_i opcode
execute env ld_font opcode = exec_set_i_to_sprite_addr opcode
execute env ld_bcd opcode = exec_set_bcd opcode
execute env ld_dump opcode = exec_reg_dump opcode
execute env ld_load opcode = exec_reg_load opcode

abbrev pub listing : Instruction → ℕ → List Piece
listing cls opcode = disassemble_display_clear opcode
listing ret opcode = disassemble_return opcode
listing sys opcode = disassemble_call opcode
listing jp opcode = disassemble_goto opcode
listing call opcode = disassemble_call_subroutine opcode
listing se_byte opcode = disassemble_if_equals opcode
listing sne_byte opcode = disassemble_if_not_equals opcode
listing se_register opcode = disassemble_skip_next_if_vx_equals_vy opcode
listing ld_byte opcode = disassemble_set_register opcode
listing add_byte opcode = disassemble_add_to_vx opcode
listing ld_register opcode = disassemble_set_vx_from_vy opcode
listing or opcode = disassemble_set_vx_to_vx_or opcode
listing and opcode = disassemble_set_vx_to_vx_and opcode
listing xor opcode = disassemble_set_vx_to_vx_xor opcode
listing add opcode = disassemble_vx_plus_vy opcode
listing sub opcode = disassemble_vx_minus_vy opcode
listing shr opcode = disassemble_set_vx_rshift_one opcode
listing subn opcode = disassemble_set_vx_vy_minus_vx opcode
listing shl opcode = disassemble_set_vx_lshift_one opcode
listing sne_register opcode = disassemble_if_vx_not_equals_to_vy opcode
listing ld_i opcode = disassemble_set_i_register opcode
listing jp_v0 opcode = disassemble_jump_to_addr_plus_v0 opcode
listing rnd opcode = disassemble_set_vx_rand_and opcode
listing drw opcode = disassemble_display_draw_sprite_at opcode
listing skp opcode = disassemble_if_key_equals_to_vx opcode
listing sknp opcode = disassemble_if_key_not_equals_to_vx opcode
listing ld_from_delay opcode = disassemble_set_vx_from_delay_timer opcode
listing ld_key opcode = disassemble_set_vx_from_key opcode
listing ld_delay opcode = disassemble_set_delay_timer_from_vx opcode
listing ld_sound opcode = disassemble_set_sound_timer opcode
listing add_i opcode = disassemble_add_vx_to_i opcode
listing ld_font opcode = disassemble_set_i_to_sprite_addr opcode
listing ld_bcd opcode = disassemble_set_bcd opcode
listing ld_dump opcode = disassemble_reg_dump opcode
listing ld_load opcode = disassemble_reg_load opcode
