-- ===== src/Emulator/Isa/Decode.antt =====
-- The masks of the two decoders pick out exactly the opcodes of each instruction.
use c_lang_examples.Prelude.{
  ℕ, ◌+◌, ◌*◌, ◌/◌, ◌%◌, ◌≡◌, IsU16, bit_and, arith, true, false, bit_and_shifted, bit_and_nibble,
  nibble_step,
}
use c_lang_examples.Emulator.Machine.{halt, unsupported_opcode}
use c_lang_examples.Emulator.Cpu.Step.{Env, cpu_decode_and_exec_opcode}
use c_lang_examples.Emulator.Disassembler.{disassembler_disassemble}
use c_lang_examples.Emulator.Isa.{
  Instruction, Matches, execute, listing, cls, ret, sys, jp, call, se_byte, sne_byte, se_register,
  ld_byte, add_byte, ld_register, or, and, xor, add, sub, shr, subn, shl, sne_register, ld_i, jp_v0,
  rnd, drw, skp, sknp, ld_from_delay, ld_key, ld_delay, ld_sound, add_i, ld_font, ld_bcd, ld_dump,
  ld_load,
}

-- The three masks of the decoders.
mask_top : (opcode : ℕ) → IsU16 opcode → bit_and opcode 0xF000 ≡ opcode / 4096 * 4096
mask_top opcode h = omega (arith, bit_and_shifted 12 opcode 15, bit_and_nibble (opcode / 4096))

mask_top_low :
    (opcode : ℕ) → IsU16 opcode → bit_and opcode 0xF00F ≡ opcode / 4096 * 4096 + opcode % 16
mask_top_low opcode h = omega (
  arith,
  nibble_step opcode 0xF00,
  bit_and_shifted 8 (opcode / 16) 15,
  bit_and_nibble (opcode / 16 / 256),
)

mask_top_byte :
    (opcode : ℕ) → IsU16 opcode → bit_and opcode 0xF0FF ≡ opcode / 4096 * 4096 + opcode % 256
mask_top_byte opcode h = omega (
  arith,
  nibble_step opcode 0xF0F,
  nibble_step (opcode / 16) 0xF0,
  bit_and_shifted 4 (opcode / 16 / 16) 15,
  bit_and_nibble (opcode / 16 / 16 / 16),
)

-- A 16-bit opcode that matches an instruction of the table is executed by the function of that
-- instruction.
pub cpu_decode_and_exec_opcode-execute :
    (env : Env) (opcode : ℕ) (instruction : Instruction)
    → IsU16 opcode
    → Matches instruction opcode
    → cpu_decode_and_exec_opcode env opcode ≡ execute env instruction opcode
unfolding cpu_decode_and_exec_opcode
cpu_decode_and_exec_opcode-execute env opcode cls h k =
    ground (arith, mask_top opcode h, mask_top_low opcode h, mask_top_byte opcode h)
cpu_decode_and_exec_opcode-execute env opcode _ h k =
    ground (arith, mask_top opcode h, mask_top_low opcode h, mask_top_byte opcode h)

-- A 16-bit opcode that matches an instruction of the table is accepted by the disassembler and
-- printed by the function of that instruction.
pub disassembler_disassemble-listing :
    (opcode : ℕ) (instruction : Instruction)
    → IsU16 opcode
    → Matches instruction opcode
    → disassembler_disassemble opcode ≡ (listing instruction opcode, true)
unfolding disassembler_disassemble
disassembler_disassemble-listing opcode cls h k =
    ground (arith, mask_top opcode h, mask_top_low opcode h, mask_top_byte opcode h)
disassembler_disassemble-listing opcode _ h k =
    ground (arith, mask_top opcode h, mask_top_low opcode h, mask_top_byte opcode h)

-- A 16-bit opcode that matches no instruction of the table stops the processor, and the
-- disassembler rejects it.
pub unsupported_opcode_lem :
    (env : Env) (opcode : ℕ)
    → IsU16 opcode
    → ((instruction : Instruction) → ¬ (Matches instruction opcode))
    → (cpu_decode_and_exec_opcode env opcode ≡ halt unsupported_opcode)
      × ((disassembler_disassemble opcode).1 ≡ false)
unfolding cpu_decode_and_exec_opcode disassembler_disassemble
unsupported_opcode_lem env opcode h none = (
  ground (
    arith,
    mask_top opcode h,
    mask_top_low opcode h,
    mask_top_byte opcode h,
    none cls,
    none ret,
    none sys,
    none jp,
    none call,
    none se_byte,
    none sne_byte,
    none se_register,
    none ld_byte,
    none add_byte,
    none ld_register,
    none or,
    none and,
    none xor,
    none add,
    none sub,
    none shr,
    none subn,
    none shl,
    none sne_register,
    none ld_i,
    none jp_v0,
    none rnd,
    none drw,
    none skp,
    none sknp,
    none ld_from_delay,
    none ld_key,
    none ld_delay,
    none ld_sound,
    none add_i,
    none ld_font,
    none ld_bcd,
    none ld_dump,
    none ld_load,
  ),
  ground (
    arith,
    mask_top opcode h,
    mask_top_low opcode h,
    mask_top_byte opcode h,
    none cls,
    none ret,
    none sys,
    none jp,
    none call,
    none se_byte,
    none sne_byte,
    none se_register,
    none ld_byte,
    none add_byte,
    none ld_register,
    none or,
    none and,
    none xor,
    none add,
    none sub,
    none shr,
    none subn,
    none shl,
    none sne_register,
    none ld_i,
    none jp_v0,
    none rnd,
    none drw,
    none skp,
    none sknp,
    none ld_from_delay,
    none ld_key,
    none ld_delay,
    none ld_sound,
    none add_i,
    none ld_font,
    none ld_bcd,
    none ld_dump,
    none ld_load,
  ),
)
