-- ===== src/Emulator/Disassembler/Lines.antt =====
-- The lines of the disassembler (disassembler.c). A call of `fprintf` is the list of the pieces of
-- its format, each number with the macro that formats it; the formatting itself is the C library's.
use Prim.Native.String.{String}
use c_lang_examples.Prelude.{ℕ, List, [], ◌∷◌}
use c_lang_examples.Emulator.Opcode.{
  opcode_decode_address, opcode_decode_register_x, opcode_decode_register_y,
  opcode_decode_const_8bit, opcode_decode_const_4bit,
}

-- `REGISTER_FMT`, `CONST_FMT`, `ADDRESS_FMT` and `OPCODE_FMT` with their numbers, and plain text.
pub data Piece : Type 0 where
  text : String → Piece
  register const address word : ℕ → Piece
  newline : Piece

unfoldable pub disassemble_display_clear : ℕ → List Piece
disassemble_display_clear opcode = text "Clear the screen" ∷ newline ∷ []

unfoldable pub disassemble_return : ℕ → List Piece
disassemble_return opcode = text "Return from a subroutine" ∷ newline ∷ []

unfoldable pub disassemble_call : ℕ → List Piece
disassemble_call opcode =
    text "Call machine code at address " ∷ address (opcode_decode_address opcode) ∷ newline ∷ []

unfoldable pub disassemble_goto : ℕ → List Piece
disassemble_goto opcode = text "goto " ∷ address (opcode_decode_address opcode) ∷ newline ∷ []

unfoldable pub disassemble_call_subroutine : ℕ → List Piece
disassemble_call_subroutine opcode =
    text "Call subroutine at address " ∷ address (opcode_decode_address opcode) ∷ newline ∷ []

unfoldable pub disassemble_if_equals : ℕ → List Piece
disassemble_if_equals opcode =
    text "if ("
    ∷ register (opcode_decode_register_x opcode)
    ∷ text " == "
    ∷ const (opcode_decode_const_8bit opcode)
    ∷ text ")"
    ∷ newline
    ∷ []

unfoldable pub disassemble_if_not_equals : ℕ → List Piece
disassemble_if_not_equals opcode =
    text "if ("
    ∷ register (opcode_decode_register_x opcode)
    ∷ text " != "
    ∷ const (opcode_decode_const_8bit opcode)
    ∷ text ")"
    ∷ newline
    ∷ []

unfoldable pub disassemble_skip_next_if_vx_equals_vy : ℕ → List Piece
disassemble_skip_next_if_vx_equals_vy opcode =
    text "skip next if ("
    ∷ register (opcode_decode_register_x opcode)
    ∷ text " == "
    ∷ register (opcode_decode_register_y opcode)
    ∷ text ")"
    ∷ newline
    ∷ []

unfoldable pub disassemble_set_register : ℕ → List Piece
disassemble_set_register opcode =
    register (opcode_decode_register_x opcode)
    ∷ text " = "
    ∷ const (opcode_decode_const_8bit opcode)
    ∷ newline
    ∷ []

unfoldable pub disassemble_add_to_vx : ℕ → List Piece
disassemble_add_to_vx opcode =
    register (opcode_decode_register_x opcode)
    ∷ text " += "
    ∷ const (opcode_decode_const_8bit opcode)
    ∷ newline
    ∷ []

unfoldable pub disassemble_set_vx_from_vy : ℕ → List Piece
disassemble_set_vx_from_vy opcode =
    register (opcode_decode_register_x opcode)
    ∷ text " = "
    ∷ register (opcode_decode_register_y opcode)
    ∷ newline
    ∷ []

unfoldable pub disassemble_set_vx_to_vx_or : ℕ → List Piece
disassemble_set_vx_to_vx_or opcode =
    register (opcode_decode_register_x opcode)
    ∷ text " |= "
    ∷ register (opcode_decode_register_y opcode)
    ∷ newline
    ∷ []

unfoldable pub disassemble_set_vx_to_vx_and : ℕ → List Piece
disassemble_set_vx_to_vx_and opcode =
    register (opcode_decode_register_x opcode)
    ∷ text " &= "
    ∷ register (opcode_decode_register_y opcode)
    ∷ newline
    ∷ []

unfoldable pub disassemble_set_vx_to_vx_xor : ℕ → List Piece
disassemble_set_vx_to_vx_xor opcode =
    register (opcode_decode_register_x opcode)
    ∷ text " ^= "
    ∷ register (opcode_decode_register_y opcode)
    ∷ newline
    ∷ []

unfoldable pub disassemble_vx_plus_vy : ℕ → List Piece
disassemble_vx_plus_vy opcode =
    register (opcode_decode_register_x opcode)
    ∷ text " += "
    ∷ register (opcode_decode_register_y opcode)
    ∷ newline
    ∷ []

unfoldable pub disassemble_vx_minus_vy : ℕ → List Piece
disassemble_vx_minus_vy opcode =
    register (opcode_decode_register_x opcode)
    ∷ text " -= "
    ∷ register (opcode_decode_register_y opcode)
    ∷ newline
    ∷ []

unfoldable pub disassemble_set_vx_rshift_one : ℕ → List Piece
disassemble_set_vx_rshift_one opcode =
    register (opcode_decode_register_x opcode) ∷ text " >>= 1" ∷ newline ∷ []

unfoldable pub disassemble_set_vx_vy_minus_vx : ℕ → List Piece
disassemble_set_vx_vy_minus_vx opcode =
    register (opcode_decode_register_x opcode)
    ∷ text " = "
    ∷ register (opcode_decode_register_y opcode)
    ∷ text " - "
    ∷ register (opcode_decode_register_x opcode)
    ∷ newline
    ∷ []

unfoldable pub disassemble_set_vx_lshift_one : ℕ → List Piece
disassemble_set_vx_lshift_one opcode =
    register (opcode_decode_register_x opcode) ∷ text " <<= 1" ∷ newline ∷ []

unfoldable pub disassemble_if_vx_not_equals_to_vy : ℕ → List Piece
disassemble_if_vx_not_equals_to_vy opcode =
    text "if ("
    ∷ register (opcode_decode_register_x opcode)
    ∷ text " != "
    ∷ register (opcode_decode_register_y opcode)
    ∷ text ")"
    ∷ newline
    ∷ []

unfoldable pub disassemble_set_i_register : ℕ → List Piece
disassemble_set_i_register opcode =
    text "I = " ∷ address (opcode_decode_address opcode) ∷ newline ∷ []

unfoldable pub disassemble_jump_to_addr_plus_v0 : ℕ → List Piece
disassemble_jump_to_addr_plus_v0 opcode =
    text "PC = V0 + " ∷ address (opcode_decode_address opcode) ∷ newline ∷ []

unfoldable pub disassemble_set_vx_rand_and : ℕ → List Piece
disassemble_set_vx_rand_and opcode =
    register (opcode_decode_register_x opcode)
    ∷ text " = rand() & "
    ∷ const (opcode_decode_const_8bit opcode)
    ∷ newline
    ∷ []

unfoldable pub disassemble_display_draw_sprite_at : ℕ → List Piece
disassemble_display_draw_sprite_at opcode =
    text "draw("
    ∷ register (opcode_decode_register_x opcode)
    ∷ text ", "
    ∷ register (opcode_decode_register_y opcode)
    ∷ text ", "
    ∷ const (opcode_decode_const_4bit opcode)
    ∷ text ")"
    ∷ newline
    ∷ []

unfoldable pub disassemble_if_key_equals_to_vx : ℕ → List Piece
disassemble_if_key_equals_to_vx opcode =
    text "if (key() == " ∷ register (opcode_decode_register_x opcode) ∷ text ")" ∷ newline ∷ []

unfoldable pub disassemble_if_key_not_equals_to_vx : ℕ → List Piece
disassemble_if_key_not_equals_to_vx opcode =
    text "if (key() != " ∷ register (opcode_decode_register_x opcode) ∷ text ")" ∷ newline ∷ []

unfoldable pub disassemble_set_vx_from_delay_timer : ℕ → List Piece
disassemble_set_vx_from_delay_timer opcode =
    register (opcode_decode_register_x opcode) ∷ text " = get_delay()" ∷ newline ∷ []

unfoldable pub disassemble_set_vx_from_key : ℕ → List Piece
disassemble_set_vx_from_key opcode =
    register (opcode_decode_register_x opcode) ∷ text " = get_key()" ∷ newline ∷ []

unfoldable pub disassemble_set_delay_timer_from_vx : ℕ → List Piece
disassemble_set_delay_timer_from_vx opcode =
    text "delay_timer(" ∷ register (opcode_decode_register_x opcode) ∷ text ")" ∷ newline ∷ []

unfoldable pub disassemble_set_sound_timer : ℕ → List Piece
disassemble_set_sound_timer opcode =
    text "sound_timer(" ∷ register (opcode_decode_register_x opcode) ∷ text ")" ∷ newline ∷ []

unfoldable pub disassemble_add_vx_to_i : ℕ → List Piece
disassemble_add_vx_to_i opcode =
    text "I += " ∷ register (opcode_decode_register_x opcode) ∷ newline ∷ []

unfoldable pub disassemble_set_i_to_sprite_addr : ℕ → List Piece
disassemble_set_i_to_sprite_addr opcode =
    text "I = sprite_addr[" ∷ register (opcode_decode_register_x opcode) ∷ text "]" ∷ newline ∷ []

unfoldable pub disassemble_set_bcd : ℕ → List Piece
disassemble_set_bcd opcode =
    text "set_bcd(" ∷ register (opcode_decode_register_x opcode) ∷ text ")" ∷ newline ∷ []

unfoldable pub disassemble_reg_dump : ℕ → List Piece
disassemble_reg_dump opcode =
    text "reg_dump(" ∷ register (opcode_decode_register_x opcode) ∷ text ", &I)" ∷ newline ∷ []

unfoldable pub disassemble_reg_load : ℕ → List Piece
disassemble_reg_load opcode =
    text "reg_load(" ∷ register (opcode_decode_register_x opcode) ∷ text ", &I)" ∷ newline ∷ []
