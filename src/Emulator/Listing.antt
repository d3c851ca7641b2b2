-- ===== src/Emulator/Listing.antt =====
-- The listing of a program (`machine_disassemble` of machine.c). The message at the end is left
-- out.
pub mod Ends
use c_lang_examples.Prelude.{
  ℕ, zero, suc, ◌+◌, ◌*◌, ◌^◌, bit_or, Bool, true, false, not, ◌&&◌, ◌==◌, ltb, if◌then◌else◌,
  Option, none, some, List, [], ◌∷◌, ◌++◌, get_elem?, u16,
}
use c_lang_examples.Emulator.Memory.{memory_size, memory_program_starting_address}
use c_lang_examples.Emulator.Disassembler.{Piece, text, address, word, disassembler_disassemble}

-- How the loop ends: after its test, by `break` at an unsupported opcode (and then `exit(1)`), by
-- a read outside of the memory, which C leaves undefined, or by none of these in the given fuel.
pub data Listing : Type 0 where
  finished unsupported overrun unfinished : List Piece → Listing

abbrev pub put : List Piece → Listing → Listing
put pieces (finished rest) = finished (pieces ++ rest)
put pieces (unsupported rest) = unsupported (pieces ++ rest)
put pieces (overrun rest) = overrun (pieces ++ rest)
put pieces (unfinished rest) = unfinished (pieces ++ rest)

-- `(m->memory[addr] << 8) | (m->memory[addr+1])`, converted to `Word`
unfoldable pub read_word : List ℕ → ℕ → Option ℕ
read_word memory addr = elim (get_elem? memory addr) [
  | none ↦ none
  | some high ↦ elim (get_elem? memory (addr + 1)) [
    | none ↦ none
    | some low ↦ some (u16 (bit_or (high * 2 ^ 8) low))
  ]
]

unfoldable pub machine_first_opcode : List ℕ → Option ℕ
machine_first_opcode memory = read_word memory memory_program_starting_address

-- One line of the listing.
unfoldable pub line_at : ℕ → ℕ → List Piece
line_at addr opcode =
    address addr ∷ text ": OPCODE[" ∷ word opcode ∷ text "]: " ∷ (disassembler_disassemble opcode).0

-- The loop from its test on.
unfoldable pub disassemble_loop : ℕ → List ℕ → ℕ → ℕ → Listing
disassemble_loop zero memory addr opcode = unfinished []
disassemble_loop (suc fuel) memory addr opcode = elim (not (opcode == 0) && ltb addr memory_size) [
  | false ↦ finished []
  | true ↦ put (line_at addr opcode) (elim ((disassembler_disassemble opcode).1) [
    | false ↦ unsupported []
    | true ↦ elim (read_word memory (u16 (addr + 2))) [
      | none ↦ overrun []
      | some next ↦ disassemble_loop fuel memory (u16 (addr + 2)) next
    ]
  ])
]

unfoldable pub machine_disassemble : ℕ → List ℕ → Listing
machine_disassemble fuel memory = elim (machine_first_opcode memory) [
  | none ↦ overrun []
  | some opcode ↦ disassemble_loop fuel memory memory_program_starting_address opcode
]
