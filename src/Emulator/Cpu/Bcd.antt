-- ===== src/Emulator/Cpu/Bcd.antt =====
-- The decimal digits of a register in memory (Fx33).
use c_lang_examples.Prelude.{
  ℕ, ◌+◌, ◌*◌, ◌/◌, ◌%◌, ◌≤◌, ◌<◌, ◌≡◌, ◌⊎◌, arith, List, length, get_or, set, u8, length-set,
  get_or-set_self, get_or-set_ne,
}
use c_lang_examples.Emulator.Opcode.{opcode_decode_register_x}
use c_lang_examples.Emulator.Opcode.Fields.{opcode_decode_register_x-lt}
use c_lang_examples.Emulator.Memory.{memory_size}
use c_lang_examples.Emulator.Machine.{Machine, ok, ◌>>=◌}
use c_lang_examples.Emulator.Machine.Invariant.{IsValid}
use c_lang_examples.Emulator.Machine.Access.{
  register, byte_at, with_byte, read_register_lem, write_memory_lem, register-lt,
}
use c_lang_examples.Emulator.Cpu.Store.{exec_set_bcd}

abbrev set_three : List ℕ → ℕ → ℕ → ℕ → ℕ → List ℕ
set_three xs i a b c = set (set (set xs i a) (i + 1) b) (i + 2) c

module _ (xs : List ℕ) (i a b c : ℕ) where
  get_or-set_three :
      i + 2 < length xs
      → (get_or (set_three xs i a b c) i 0 ≡ a)
        × (get_or (set_three xs i a b c) (i + 1) 0 ≡ b)
        × (get_or (set_three xs i a b c) (i + 2) 0 ≡ c)
  get_or-set_three h = (
    rw
        (
          get_or-set_ne (set (set xs i a) (i + 1) b) (i + 2) i c 0 (omega arith),
          get_or-set_ne (set xs i a) (i + 1) i b 0 (omega arith),
        )
        (get_or-set_self xs i a 0 (omega arith)),
    rw (get_or-set_ne (set (set xs i a) (i + 1) b) (i + 2) (i + 1) c 0 (omega arith))
        (get_or-set_self (set xs i a) (i + 1) b 0 (omega (arith, length-set xs i a))),
    get_or-set_self (set (set xs i a) (i + 1) b) (i + 2) c 0
        (omega (arith, length-set (set xs i a) (i + 1) b, length-set xs i a)),
  )

  get_or-set_three_other :
      (j : ℕ) → (j < i) ⊎ (i + 3 ≤ j) → get_or (set_three xs i a b c) j 0 ≡ get_or xs j 0
  get_or-set_three_other j h =
      rw
        (
          get_or-set_ne (set (set xs i a) (i + 1) b) (i + 2) j c 0 (omega arith),
          get_or-set_ne (set xs i a) (i + 1) j b 0 (omega arith),
        )
        (get_or-set_ne xs i j a 0 (omega arith))

-- Fx33 on a valid machine with three bytes of memory from I on: these bytes become the decimal
-- digits of Vx; every other byte of the memory, and the rest of the machine, are unchanged.
pub exec_set_bcd_lem :
    (m : Machine) (opcode : ℕ)
    → IsValid m
    → m.cpu.i + 2 < memory_size
    → (memory : List ℕ) × (exec_set_bcd opcode m ≡ ok tt (record m { memory = memory }))
      × (get_or memory m.cpu.i 0 * 100
            + get_or memory (m.cpu.i + 1) 0 * 10
            + get_or memory (m.cpu.i + 2) 0
          ≡ register m (opcode_decode_register_x opcode))
      × (get_or memory m.cpu.i 0 ≤ 9)
      × (get_or memory (m.cpu.i + 1) 0 ≤ 9)
      × (get_or memory (m.cpu.i + 2) 0 ≤ 9)
      × ((a : ℕ) → (a < m.cpu.i) ⊎ (m.cpu.i + 3 ≤ a) → get_or memory a 0 ≡ byte_at m a)
unfolding exec_set_bcd ◌>>=◌
exec_set_bcd_lem m opcode v h =
    let i = m.cpu.i in
    let vx = register m (opcode_decode_register_x opcode) in
    let a = u8 (vx % 1000 / 100) in
    let b = u8 (vx % 100 / 10) in
    let c = u8 (vx % 10 / 1) in
    let digits =
      get_or-set_three m.memory i (u8 a) (u8 b) (u8 c) (omega (arith, v.memory_length)) in
    let small = register-lt m (opcode_decode_register_x opcode) v in
    (
      set_three m.memory i (u8 a) (u8 b) (u8 c),
      rw (
        read_register_lem m (opcode_decode_register_x opcode) v.registers_length
            (opcode_decode_register_x-lt opcode),
        write_memory_lem m i a v.memory_length (omega arith),
        write_memory_lem (with_byte m i a) (i + 1) b
            (omega (arith, v.memory_length, length-set m.memory i (u8 a))) (omega arith),
        write_memory_lem (with_byte (with_byte m i a) (i + 1) b) (i + 2) c
            (omega (
              arith,
              v.memory_length,
              length-set m.memory i (u8 a),
              length-set (set m.memory i (u8 a)) (i + 1) (u8 b),
            ))
            (omega arith),
      ),
      omega (arith, digits.0, digits.1, digits.2, small),
      omega (arith, digits.0, small),
      omega (arith, digits.1, small),
      omega (arith, digits.2, small),
      get_or-set_three_other m.memory i (u8 a) (u8 b) (u8 c),
    )
