-- ===== src/Emulator/Cpu/Cycle.antt =====
-- The fetch, decode and execute cycle.
use native.Mathlib.Decide.{ℕ_discrete}
use c_lang_examples.Prelude.{
  ℕ, ◌+◌, ◌*◌, ◌<◌, ◌≡◌, ◌≢◌, inl, inr, false, arith, leb, ◌==◌, if◌then◌else◌, Bool-cases,
  bit_or_shifted, get_elem?-none, get_elem?-eq-get_or,
}
use c_lang_examples.Emulator.Memory.{memory_size}
use c_lang_examples.Emulator.Machine.{
  Machine, ok, stop, fault, pc_overflow, zero_opcode, ◌>>=◌, read_memory,
}
use c_lang_examples.Emulator.Machine.Invariant.{IsValid, Meets-excuse, stops, faults}
use c_lang_examples.Emulator.Machine.Access.{byte_at, byte_at-lt, read_memory_lem}
use c_lang_examples.Emulator.Cpu.Calls.{at_pc}
use c_lang_examples.Emulator.Cpu.Flow.{fetch_opcode, cpu_pc_advance}
use c_lang_examples.Emulator.Cpu.Step.{Env, cpu_decode_and_exec_opcode, cpu_step}
use c_lang_examples.Emulator.Cpu.Bounds.{Lands}
use c_lang_examples.Emulator.Cpu.Safety.{Overrun, cpu_decode_and_exec_opcode-Lands}

-- The big-endian word at an address.
abbrev pub word_at : Machine → ℕ → ℕ
word_at m a = byte_at m a * 256 + byte_at m (a + 1)

pub fetch_opcode_lem :
    (m : Machine)
    → IsValid m
    → m.cpu.pc + 1 < memory_size
    → fetch_opcode m ≡ ok (word_at m m.cpu.pc) m
unfolding fetch_opcode ◌>>=◌
fetch_opcode_lem m v h =
    rw
      (
        read_memory_lem m m.cpu.pc v.memory_length (omega arith),
        read_memory_lem m (m.cpu.pc + 1) v.memory_length h,
        bit_or_shifted 8 (byte_at m m.cpu.pc) (byte_at m (m.cpu.pc + 1))
            (byte_at-lt m (m.cpu.pc + 1) v),
      )
      (ground (arith, byte_at-lt m m.cpu.pc v, byte_at-lt m (m.cpu.pc + 1) v))

-- On a valid machine whose program counter is not 4095, a step stops when the counter has left the
-- memory or points to a zero word; else it executes the big-endian word at the counter on the
-- machine whose counter is two further.
pub cpu_step_lem :
    (env : Env) (m : Machine)
    → IsValid m
    → m.cpu.pc ≢ 4095
    → cpu_step env m ≡ (
        if leb memory_size m.cpu.pc
        then stop pc_overflow
        else if word_at m m.cpu.pc == 0
        then stop zero_opcode
        else cpu_decode_and_exec_opcode env (word_at m m.cpu.pc) (at_pc m (m.cpu.pc + 2)))
unfolding cpu_step cpu_pc_advance ◌>>=◌
cpu_step_lem env m v h = elim (Bool-cases (leb memory_size m.cpu.pc)) [
  | inl outside ↦ rw outside
  | inr inside ↦
      rw (inside, fetch_opcode_lem m v (ground arith))
        (elim (Bool-cases (word_at m m.cpu.pc == 0)) [ inl e ↦ rw e | inr e ↦ rw e ])
]

fetch_opcode_fault : (m : Machine) → IsValid m → m.cpu.pc ≡ 4095 → fetch_opcode m ≡ fault
unfolding fetch_opcode read_memory ◌>>=◌
fetch_opcode_fault m v h = rw (
  get_elem?-eq-get_or m.memory m.cpu.pc 0 (omega (arith, v.memory_length)),
  get_elem?-none m.memory (m.cpu.pc + 1) (omega (arith, v.memory_length)),
)

-- A step of a valid machine whose program counter is at the last byte of the memory reads past the
-- end of the memory.
pub cpu_step_at_last_byte :
    (env : Env) (m : Machine) → IsValid m → m.cpu.pc ≡ 4095 → cpu_step env m ≡ fault
unfolding cpu_step ◌>>=◌
cpu_step_at_last_byte env m v h =
    let inside : leb memory_size m.cpu.pc ≡ false = ground arith in
    rw (inside, fetch_opcode_fault m v h)

-- Where a step may fault: at the last byte, or by an overrun of the instruction.
pub data StepOverrun (m : Machine) : Type 0 where
  word_out : m.cpu.pc ≡ 4095 → StepOverrun m
  operand_out : Overrun (at_pc m (m.cpu.pc + 2)) (word_at m m.cpu.pc) → StepOverrun m

pub at_pc-IsValid : (m : Machine) (a : ℕ) → IsValid m → IsValid (at_pc m a)
at_pc-IsValid m a v = ground arith

-- A step from a valid machine ends in a valid machine or stops the program, unless it is one of
-- the listed overruns: the counter at the last byte, or an overrun of the instruction.
pub cpu_step-Lands : (env : Env) (m : Machine) → IsValid m → Lands (StepOverrun m) (cpu_step env m)
cpu_step-Lands env m v = elim (ℕ_discrete m.cpu.pc 4095) [
  | yes last ↦ rw (cpu_step_at_last_byte env m v last) (faults (word_out last))
  | no inside ↦ rw (cpu_step_lem env m v inside) (elim (Bool-cases (leb memory_size m.cpu.pc)) [
    | inl e ↦ rw e (stops pc_overflow)
    | inr e ↦ rw e (elim (Bool-cases (word_at m m.cpu.pc == 0)) [
      | inl e' ↦ rw e' (stops zero_opcode)
      | inr e' ↦ rw e' (
          Meets-excuse operand_out (
            cpu_decode_and_exec_opcode-Lands env (word_at m m.cpu.pc) (at_pc m (m.cpu.pc + 2))
              (at_pc-IsValid m (m.cpu.pc + 2) v)))
    ])
  ])
]
