-- ===== src/Emulator/Disassembler.antt =====
-- The choice of the line for an opcode (disassembler.c).
mod Lines
pub use Lines.*
use Prim.Native.String.{String}
use c_lang_examples.Prelude.{ℕ, bit_and, Bool, true, false, ◌==◌, if◌then◌else◌, List, [], ◌∷◌}
use c_lang_examples.Emulator.Opcode.{
  opcode_decode_address, opcode_decode_register_x, opcode_decode_register_y,
  opcode_decode_const_8bit, opcode_decode_const_4bit,
}

-- What is printed, and whether the opcode is supported.
unfoldable pub disassembler_disassemble : ℕ → List Piece × Bool
disassembler_disassemble opcode =
    if opcode == 0x00E0
    then (disassemble_display_clear opcode, true)
    else if opcode == 0x00EE
    then (disassemble_return opcode, true)
    else if bit_and opcode 0xF000 == 0x0000
    then (disassemble_call opcode, true)
    else if bit_and opcode 0xF000 == 0x1000
    then (disassemble_goto opcode, true)
    else if bit_and opcode 0xF000 == 0x2000
    then (disassemble_call_subroutine opcode, true)
    else if bit_and opcode 0xF000 == 0x3000
    then (disassemble_if_equals opcode, true)
    else if bit_and opcode 0xF000 == 0x4000
    then (disassemble_if_not_equals opcode, true)
    else if bit_and opcode 0xF00F == 0x5000
    then (disassemble_skip_next_if_vx_equals_vy opcode, true)
    else if bit_and opcode 0xF000 == 0x6000
    then (disassemble_set_register opcode, true)
    else if bit_and opcode 0xF000 == 0x7000
    then (disassemble_add_to_vx opcode, true)
    else if bit_and opcode 0xF00F == 0x8000
    then (disassemble_set_vx_from_vy opcode, true)
    else if bit_and opcode 0xF00F == 0x8001
    then (disassemble_set_vx_to_vx_or opcode, true)
    else if bit_and opcode 0xF00F == 0x8002
    then (disassemble_set_vx_to_vx_and opcode, true)
    else if bit_and opcode 0xF00F == 0x8003
    then (disassemble_set_vx_to_vx_xor opcode, true)
    else if bit_and opcode 0xF00F == 0x8004
    then (disassemble_vx_plus_vy opcode, true)
    else if bit_and opcode 0xF00F == 0x8005
    then (disassemble_vx_minus_vy opcode, true)
    else if bit_and opcode 0xF00F == 0x8006
    then (disassemble_set_vx_rshift_one opcode, true)
    else if bit_and opcode 0xF00F == 0x8007
    then (disassemble_set_vx_vy_minus_vx opcode, true)
    else if bit_and opcode 0xF00F == 0x800E
    then (disassemble_set_vx_lshift_one opcode, true)
    else if bit_and opcode 0xF00F == 0x9000
    then (disassemble_if_vx_not_equals_to_vy opcode, true)
    else if bit_and opcode 0xF000 == 0xA000
    then (disassemble_set_i_register opcode, true)
    else if bit_and opcode 0xF000 == 0xB000
    then (disassemble_jump_to_addr_plus_v0 opcode, true)
    else if bit_and opcode 0xF000 == 0xC000
    then (disassemble_set_vx_rand_and opcode, true)
    else if bit_and opcode 0xF000 == 0xD000
    then (disassemble_display_draw_sprite_at opcode, true)
    else if bit_and opcode 0xF0FF == 0xE09E
    then (disassemble_if_key_equals_to_vx opcode, true)
    else if bit_and opcode 0xF0FF == 0xE0A1
    then (disassemble_if_key_not_equals_to_vx opcode, true)
    else if bit_and opcode 0xF0FF == 0xF007
    then (disassemble_set_vx_from_delay_timer opcode, true)
    else if bit_and opcode 0xF0FF == 0xF00A
    then (disassemble_set_vx_from_key opcode, true)
    else if bit_and opcode 0xF0FF == 0xF015
    then (disassemble_set_delay_timer_from_vx opcode, true)
    else if bit_and opcode 0xF0FF == 0xF018
    then (disassemble_set_sound_timer opcode, true)
    else if bit_and opcode 0xF0FF == 0xF01E
    then (disassemble_add_vx_to_i opcode, true)
    else if bit_and opcode 0xF0FF == 0xF029
    then (disassemble_set_i_to_sprite_addr opcode, true)
    else if bit_and opcode 0xF0FF == 0xF033
    then (disassemble_set_bcd opcode, true)
    else if bit_and opcode 0xF0FF == 0xF055
    then (disassemble_reg_dump opcode, true)
    else if bit_and opcode 0xF0FF == 0xF065
    then (disassemble_reg_load opcode, true)
    else (text "error: unsupported opcode. opcode=" ∷ word opcode ∷ newline ∷ [], false)
