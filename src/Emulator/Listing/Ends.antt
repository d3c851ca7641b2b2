-- ===== src/Emulator/Listing/Ends.antt =====
-- How the listing of a program ends.
use native.Mathlib.Decide.{ℕ_discrete, dec_lt}
use c_lang_examples.Prelude.{
  ℕ, zero, suc, ◌+◌, ◌*◌, ◌%◌, ◌≤◌, ◌<◌, ◌≡◌, ◌≢◌, inl, inr, Bool-cases, ltb, lt→ltb, ◌==◌, ◌&&◌,
  sym, subst, true, false, not, arith, bit_or_shifted, none, some, List, [], ◌++◌, u16, length,
  get_or, get_elem?-eq-get_or, get_elem?-none, All, All-get_or, IsByte,
}
use c_lang_examples.Emulator.Memory.{memory_size, memory_program_starting_address}
use c_lang_examples.Emulator.Disassembler.{disassembler_disassemble}
use c_lang_examples.Emulator.Listing.{
  Listing, finished, unsupported, overrun, put, read_word, machine_first_opcode, line_at,
  disassemble_loop, machine_disassemble,
}

-- The big-endian word at an address.
abbrev pub word_of : List ℕ → ℕ → ℕ
word_of memory addr = get_or memory addr 0 * 256 + get_or memory (addr + 1) 0

-- The memory is one of 4096 bytes.
abbrev pub IsMemory : List ℕ → Type 0
IsMemory memory = (length memory ≡ memory_size) × All IsByte memory

read_word-inside :
    (memory : List ℕ) (addr : ℕ)
    → IsMemory memory
    → addr + 1 < memory_size
    → read_word memory addr ≡ some (word_of memory addr)
unfolding read_word
read_word-inside memory addr v h =
    let high = All-get_or IsByte memory addr 0 v.1 (omega arith) in
    let low = All-get_or IsByte memory (addr + 1) 0 v.1 (omega arith) in
    rw
      (
        get_elem?-eq-get_or memory addr 0 (omega (arith, v.0)),
        get_elem?-eq-get_or memory (addr + 1) 0 (omega (arith, v.0)),
        bit_or_shifted 8 (get_or memory addr 0) (get_or memory (addr + 1) 0) low,
        read_word,
      )
      (ground (arith, high, low))

read_word-outside :
    (memory : List ℕ) (addr : ℕ)
    → IsMemory memory
    → memory_size ≤ addr
    → read_word memory addr ≡ none
unfolding read_word
read_word-outside memory addr v h = rw (get_elem?-none memory addr (omega (arith, v.0)), read_word)

-- How the words of a program end, from an address on: with a word zero, with a word that is not an
-- instruction, or with the memory itself; and the listing of the words before that.
pub data Ends (memory : List ℕ) : ℕ → Listing → Type 0 where
  at_zero :
      {addr : ℕ} → addr + 1 < memory_size → word_of memory addr ≡ 0 → Ends memory addr (finished [])
  at_unsupported :
      {addr : ℕ}
      → addr + 1 < memory_size
      → (disassembler_disassemble (word_of memory addr)).1 ≡ false
      → Ends memory addr (unsupported (line_at addr (word_of memory addr) ++ []))
  at_memory_end : Ends memory memory_size (overrun [])
  after :
      {addr : ℕ} {rest : Listing}
      → addr + 1 < memory_size
      → word_of memory addr ≢ 0
      → (disassembler_disassemble (word_of memory addr)).1 ≡ true
      → Ends memory (addr + 2) rest
      → Ends memory addr (put (line_at addr (word_of memory addr)) rest)

disassemble_loop-Ends :
    (fuel : ℕ) (memory : List ℕ) (addr : ℕ)
    → IsMemory memory
    → addr < memory_size
    → addr % 2 ≡ 0
    → memory_size ≤ addr + 2 * fuel
    → Ends memory addr (disassemble_loop fuel memory addr (word_of memory addr))
unfolding disassemble_loop
disassemble_loop-Ends zero memory addr v h even enough = absurd (omega arith)
disassemble_loop-Ends (suc fuel) memory addr v h even enough =
    let next : u16 (addr + 2) ≡ addr + 2 = omega arith in
    let inside = lt→ltb addr memory_size h in
    elim (ℕ_discrete (word_of memory addr) 0) [
      | yes zero_word ↦ rw (zero_word, disassemble_loop) (at_zero (omega arith) zero_word)
      | no nonzero ↦
          let on : (not (word_of memory addr == 0) && ltb addr memory_size) ≡ true = ground arith in
          elim (Bool-cases (disassembler_disassemble (word_of memory addr)).1) [
            | inr bad ↦ rw (on, bad, disassemble_loop) (at_unsupported (omega arith) bad)
            | inl good ↦
                rw (on, good, disassemble_loop)
                  (elim (dec_lt (addr + 2) memory_size) [
                    | no past ↦
                        let last : addr + 2 ≡ memory_size = omega arith in
                        rw (next, read_word-outside memory (addr + 2) v (omega arith))
                          (after (omega arith) nonzero good (
                            subst (λ (a : ℕ). Ends memory a (overrun [])) (sym last) at_memory_end))
                    | yes more ↦
                        rw (next, read_word-inside memory (addr + 2) v (omega arith), next)
                          (after (omega arith) nonzero good (
                            disassemble_loop-Ends fuel memory (addr + 2) v more (omega arith)
                              (omega arith)))
                  ])
          ]
    ]

-- The listing of a memory of 4096 bytes ends within 1792 rounds of its loop: it lists the words
-- from 0x200 on, up to the first that is zero, or with the first that is not an instruction; if
-- there is no such word, the loop reads past the end of the memory.
pub machine_disassemble-Ends :
    (fuel : ℕ) (memory : List ℕ)
    → IsMemory memory
    → 1792 ≤ fuel
    → Ends memory memory_program_starting_address (machine_disassemble fuel memory)
unfolding machine_disassemble machine_first_opcode
machine_disassemble-Ends fuel memory v h =
    rw (read_word-inside memory 512 v (omega arith), machine_disassemble)
      (disassemble_loop-Ends fuel memory 512 v (omega arith) (omega arith) (omega arith))
