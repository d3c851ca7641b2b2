-- ===== src/Emulator/Cpu/Dump.antt =====
-- Registers are dumped to memory and loaded back (Fx55, Fx65).
use native.Mathlib.Decide.{ℕ_discrete}
use c_lang_examples.Prelude.{
  ℕ, zero, suc, ◌+◌, ◌-◌, ◌≤◌, ◌<◌, ◌≡◌, ◌⊎◌, inr, refl, ◌∙◌, arith, List, length, get_or, u8, u16,
  length-set, get_or-set_self, get_or-set_ne,
}
use c_lang_examples.Emulator.Opcode.{opcode_decode_register_x}
use c_lang_examples.Emulator.Opcode.Fields.{opcode_decode_register_x-lt}
use c_lang_examples.Emulator.Memory.{memory_size}
use c_lang_examples.Emulator.Machine.{Machine, Outcome, ok, register_count, ◌>>=◌, ◌>>◌, modify_cpu}
use c_lang_examples.Emulator.Machine.Invariant.{IsValid}
use c_lang_examples.Emulator.Machine.Access.{
  register, byte_at, with_register, with_byte, read_register_lem, write_register_lem,
  read_memory_lem, write_memory_lem, register-lt, byte_at-lt,
}
use c_lang_examples.Emulator.Cpu.Store.{exec_reg_dump, exec_reg_load, reg_dump_from, reg_load_from}

-- A run that ends with `rounds` registers, from Vi on, stored at `addr`, and all else unchanged.
pub record Dumps (m : Machine) (rounds i addr : ℕ) (run : Outcome (Unit {0})) : Type 0 where
  pub memory : List ℕ
  pub returns : run ≡ ok tt (record m { memory = memory })
  pub same_length : length memory ≡ length m.memory
  pub inside :
      (a : ℕ) → addr ≤ a → a < addr + rounds → get_or memory a 0 ≡ register m (i + (a - addr))
  pub outside : (a : ℕ) → (a < addr) ⊎ (addr + rounds ≤ a) → get_or memory a 0 ≡ byte_at m a

reg_dump_from-suc :
    (rounds i addr : ℕ) (m : Machine)
    → length m.cpu.registers ≡ register_count
    → length m.memory ≡ memory_size
    → i < register_count
    → addr < memory_size
    → reg_dump_from (suc rounds) i addr m
      ≡ reg_dump_from rounds (i + 1) (addr + 1) (with_byte m addr (register m i))
unfolding reg_dump_from ◌>>=◌
reg_dump_from-suc rounds i addr m len mem hi ha =
    let e : u16 (addr + 1) ≡ addr + 1 = omega arith in
    rw (read_register_lem m i len hi, write_memory_lem m addr (register m i) mem ha, e)

Dumps-suc :
    (rounds i addr : ℕ) (m : Machine) {run : Outcome (Unit {0})}
    → register m i < 256
    → addr < length m.memory
    → Dumps (with_byte m addr (register m i)) rounds (i + 1) (addr + 1) run
    → Dumps m (suc rounds) i addr run
Dumps-suc rounds i addr m small ha rest = record {
  memory = rest.memory;
  returns = rest.returns;
  same_length = rest.same_length ∙ length-set m.memory addr (u8 (register m i));
  inside = λ a p q. elim (ℕ_discrete a addr) [
    | yes here ↦
        ground (arith, rest.outside a, get_or-set_self m.memory addr (u8 (register m i)) 0 ha)
    | no there ↦ ground (arith, rest.inside a)
  ];
  outside =
      λ a h. ground (arith, rest.outside a, get_or-set_ne m.memory addr a (u8 (register m i)) 0);
}

reg_dump_from-Dumps :
    (rounds i addr : ℕ) (m : Machine)
    → length m.cpu.registers ≡ register_count
    → length m.memory ≡ memory_size
    → ((r : ℕ) → register m r < 256)
    → i + rounds ≤ register_count
    → addr + rounds ≤ memory_size
    → Dumps m rounds i addr (reg_dump_from rounds i addr m)
reg_dump_from-Dumps zero i addr m len mem small hi ha = record {
  memory = m.memory;
  returns = unfold reg_dump_from ◌>>=◌ in refl;
  same_length = refl;
  inside = λ a p q. absurd (omega arith);
  outside = λ a h. refl;
}
reg_dump_from-Dumps (suc rounds) i addr m len mem small hi ha =
    rw (reg_dump_from-suc rounds i addr m len mem (omega arith) (omega arith)) (
      Dumps-suc rounds i addr m (small i) (omega arith) (
        reg_dump_from-Dumps rounds (i + 1) (addr + 1) (with_byte m addr (register m i)) len
          (omega (arith, length-set m.memory addr (u8 (register m i)))) small (omega arith)
          (omega arith)))

-- A run that ends with `rounds` bytes from `addr` on in the registers from Vi on, and all else
-- unchanged.
pub record Loads (m : Machine) (rounds i addr : ℕ) (run : Outcome (Unit {0})) : Type 0 where
  pub registers : List ℕ
  pub returns : run ≡ ok tt (record m { cpu = record (m.cpu) { registers = registers } })
  pub same_length : length registers ≡ length m.cpu.registers
  pub inside : (r : ℕ) → i ≤ r → r < i + rounds → get_or registers r 0 ≡ byte_at m (addr + (r - i))
  pub outside : (r : ℕ) → (r < i) ⊎ (i + rounds ≤ r) → get_or registers r 0 ≡ register m r

reg_load_from-suc :
    (rounds i addr : ℕ) (m : Machine)
    → length m.cpu.registers ≡ register_count
    → length m.memory ≡ memory_size
    → i < register_count
    → addr < memory_size
    → reg_load_from (suc rounds) i addr m
      ≡ reg_load_from rounds (i + 1) (addr + 1) (with_register m i (byte_at m addr))
unfolding reg_load_from ◌>>=◌
reg_load_from-suc rounds i addr m len mem hi ha =
    let e : u16 (addr + 1) ≡ addr + 1 = omega arith in
    rw (read_memory_lem m addr mem ha, write_register_lem m i (byte_at m addr) len hi, e)

Loads-suc :
    (rounds i addr : ℕ) (m : Machine) {run : Outcome (Unit {0})}
    → byte_at m addr < 256
    → i < length m.cpu.registers
    → Loads (with_register m i (byte_at m addr)) rounds (i + 1) (addr + 1) run
    → Loads m (suc rounds) i addr run
Loads-suc rounds i addr m small hi rest = record {
  registers = rest.registers;
  returns = rest.returns;
  same_length = rest.same_length ∙ length-set m.cpu.registers i (u8 (byte_at m addr));
  inside = λ r p q. elim (ℕ_discrete r i) [
    | yes here ↦
        ground (arith, rest.outside r, get_or-set_self m.cpu.registers i (u8 (byte_at m addr)) 0 hi)
    | no there ↦ ground (arith, rest.inside r)
  ];
  outside = λ r h.
      ground (arith, rest.outside r, get_or-set_ne m.cpu.registers i r (u8 (byte_at m addr)) 0);
}

reg_load_from-Loads :
    (rounds i addr : ℕ) (m : Machine)
    → length m.cpu.registers ≡ register_count
    → length m.memory ≡ memory_size
    → ((a : ℕ) → byte_at m a < 256)
    → i + rounds ≤ register_count
    → addr + rounds ≤ memory_size
    → Loads m rounds i addr (reg_load_from rounds i addr m)
reg_load_from-Loads zero i addr m len mem small hi ha = record {
  registers = m.cpu.registers;
  returns = unfold reg_load_from ◌>>=◌ in refl;
  same_length = refl;
  inside = λ r p q. absurd (omega arith);
  outside = λ r h. refl;
}
reg_load_from-Loads (suc rounds) i addr m len mem small hi ha =
    rw (reg_load_from-suc rounds i addr m len mem (omega arith) (omega arith)) (
      Loads-suc rounds i addr m (small addr) (omega arith) (
        reg_load_from-Loads rounds (i + 1) (addr + 1) (with_register m i (byte_at m addr))
          (omega (arith, length-set m.cpu.registers i (u8 (byte_at m addr)))) mem small
          (omega arith) (omega arith)))

-- Fx55 on a valid machine, when V0 to Vx fit between I and the end of the memory: they are stored
-- from I on, and every other byte of the memory, and the rest of the machine, are unchanged.
pub exec_reg_dump-Dumps :
    (m : Machine) (opcode : ℕ)
    → IsValid m
    → m.cpu.i + opcode_decode_register_x opcode < memory_size
    → Dumps m (opcode_decode_register_x opcode + 1) 0 m.cpu.i (exec_reg_dump opcode m)
unfolding exec_reg_dump ◌>>=◌
exec_reg_dump-Dumps m opcode v h =
    reg_dump_from-Dumps (opcode_decode_register_x opcode + 1) 0 m.cpu.i m v.registers_length
      v.memory_length (λ r. register-lt m r v) (omega (arith, opcode_decode_register_x-lt opcode))
      (omega arith)

-- Fx65 on a valid machine, when the bytes for V0 to Vx lie in the memory from I on: they are
-- loaded into V0 to Vx, and the other registers, and the rest of the machine, are unchanged.
pub exec_reg_load-Loads :
    (m : Machine) (opcode : ℕ)
    → IsValid m
    → m.cpu.i + opcode_decode_register_x opcode < memory_size
    → Loads m (opcode_decode_register_x opcode + 1) 0 m.cpu.i (exec_reg_load opcode m)
unfolding exec_reg_load ◌>>=◌
exec_reg_load-Loads m opcode v h =
    reg_load_from-Loads (opcode_decode_register_x opcode + 1) 0 m.cpu.i m v.registers_length
      v.memory_length (λ a. byte_at-lt m a v) (omega (arith, opcode_decode_register_x-lt opcode))
      (omega arith)

-- On a valid machine where V0 to Vx fit between I and the end of the memory, registers that were
-- dumped are loaded back, whatever sixteen values the registers hold in between: V0 to Vx are as at
-- the dump, and the others keep what they held before the load.
pub exec_reg_load-exec_reg_dump :
    (m : Machine) (opcode : ℕ) (clobbered : List ℕ)
    → IsValid m
    → m.cpu.i + opcode_decode_register_x opcode < memory_size
    → length clobbered ≡ register_count
    → (after : Machine) × ((exec_reg_dump opcode
            >> (modify_cpu (λ c. record c { registers = clobbered }) >> exec_reg_load opcode))
          m
        ≡ ok tt after)
      × ((r : ℕ) → r ≤ opcode_decode_register_x opcode → register after r ≡ register m r)
      × ((r : ℕ) → opcode_decode_register_x opcode < r → register after r ≡ get_or clobbered r 0)
unfolding exec_reg_load ◌>>=◌ modify_cpu
exec_reg_load-exec_reg_dump m opcode clobbered v h len = (
  record m { memory = dumps.memory; cpu = record (m.cpu) { registers = loads.registers } },
  rw (dumps.returns, loads.returns),
  λ r p. ground (arith, loads.inside r, dumps.inside (m.cpu.i + r)),
  λ r p. loads.outside r (inr (omega arith)),
)
  where
    x : ℕ
    x = opcode_decode_register_x opcode

    dumps : Dumps m (x + 1) 0 m.cpu.i (exec_reg_dump opcode m)
    dumps = exec_reg_dump-Dumps m opcode v h

    between : Machine
    between = record m { memory = dumps.memory; cpu = record (m.cpu) { registers = clobbered } }

    bytes : (a : ℕ) → byte_at between a < 256
    bytes a = ground (
      arith,
      dumps.inside a,
      dumps.outside a,
      register-lt m (0 + (a - m.cpu.i)) v,
      byte_at-lt m a v,
    )

    loads : Loads between (x + 1) 0 m.cpu.i (reg_load_from (x + 1) 0 m.cpu.i between)
    loads =
        reg_load_from-Loads (x + 1) 0 m.cpu.i between len
          (omega (arith, dumps.same_length, v.memory_length)) bytes
          (omega (arith, opcode_decode_register_x-lt opcode)) (omega arith)
