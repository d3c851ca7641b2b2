-- ===== src/Emulator/Machine/Access.antt =====
-- Reads and writes of a machine whose arrays have their sizes, as equations.
use c_lang_examples.Prelude.{
  ℕ, ◌<◌, ◌≡◌, arith, length, get_or, set, u8, get_elem?-eq-get_or, lt→ltb, All-get_or, IsByte,
}
use c_lang_examples.Emulator.Memory.{memory_size}
use c_lang_examples.Emulator.Machine.{
  Machine, ok, register_count, read_register, write_register, read_memory, write_memory,
}
use c_lang_examples.Emulator.Machine.Invariant.{IsValid}

-- The register Vx and the byte at an address.
abbrev pub register : Machine → ℕ → ℕ
register m x = get_or m.cpu.registers x 0

abbrev pub byte_at : Machine → ℕ → ℕ
byte_at m a = get_or m.memory a 0

abbrev pub with_register : Machine → ℕ → ℕ → Machine
with_register m x v = record m { cpu = record (m.cpu) { registers = set m.cpu.registers x (u8 v) } }

abbrev pub with_byte : Machine → ℕ → ℕ → Machine
with_byte m a v = record m { memory = set m.memory a (u8 v) }

pub read_register_lem :
    (m : Machine) (x : ℕ)
    → length m.cpu.registers ≡ register_count
    → x < register_count
    → read_register x m ≡ ok (register m x) m
unfolding read_register
read_register_lem m x e h = rw (get_elem?-eq-get_or m.cpu.registers x 0 (omega arith))

pub write_register_lem :
    (m : Machine) (x v : ℕ)
    → length m.cpu.registers ≡ register_count
    → x < register_count
    → write_register x v m ≡ ok tt (with_register m x v)
unfolding write_register
write_register_lem m x v e h = rw (lt→ltb x (length m.cpu.registers) (omega arith))

pub read_memory_lem :
    (m : Machine) (a : ℕ)
    → length m.memory ≡ memory_size
    → a < memory_size
    → read_memory a m ≡ ok (byte_at m a) m
unfolding read_memory
read_memory_lem m a e h = rw (get_elem?-eq-get_or m.memory a 0 (omega arith))

pub write_memory_lem :
    (m : Machine) (a v : ℕ)
    → length m.memory ≡ memory_size
    → a < memory_size
    → write_memory a v m ≡ ok tt (with_byte m a v)
unfolding write_memory
write_memory_lem m a v e h = rw (lt→ltb a (length m.memory) (omega arith))

pub register-lt : (m : Machine) (x : ℕ) → IsValid m → register m x < 256
register-lt m x v = All-get_or IsByte m.cpu.registers x 0 v.registers_bytes (omega arith)

pub byte_at-lt : (m : Machine) (a : ℕ) → IsValid m → byte_at m a < 256
byte_at-lt m a v = All-get_or IsByte m.memory a 0 v.memory_bytes (omega arith)

-- `m'` differs from `m` in its registers at most.
pub record SameButRegisters (m m' : Machine) : Type 0 where
  pub memory : m'.memory ≡ m.memory
  pub pc : m'.cpu.pc ≡ m.cpu.pc
  pub i : m'.cpu.i ≡ m.cpu.i
  pub stack : m'.cpu.stack ≡ m.cpu.stack
  pub stack_count : m'.cpu.stack_count ≡ m.cpu.stack_count
  pub display : m'.display ≡ m.display
  pub delay_timer : m'.delay_timer ≡ m.delay_timer
  pub sound_timer : m'.sound_timer ≡ m.sound_timer
