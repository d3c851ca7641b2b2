-- ===== src/Emulator/Cpu/Calls.antt =====
-- The call stack: what a push and a pop do, and that a return leads back behind its call.
use native.Mathlib.Decide.{dec_lt}
use c_lang_examples.Prelude.{
  ℕ, ◌+◌, ◌-◌, ◌%◌, ◌≤◌, ◌<◌, ◌≡◌, arith, length, get_or, set, u16, ltb, length-set,
  get_elem?-eq-get_or, get_or-set_self, if◌then◌else◌, All-set, IsU16,
}
use c_lang_examples.Emulator.Opcode.{opcode_decode_address}
use c_lang_examples.Emulator.Opcode.Fields.{opcode_decode_address_lem}
use c_lang_examples.Emulator.Machine.{
  Machine, ok, stop, stack_overflow, stack_underflow, ◌>>=◌, stack_capacity,
}
use c_lang_examples.Emulator.Machine.Invariant.{IsValid, returns, stops, Runs}
use c_lang_examples.Emulator.Cpu.Flow.{
  cpu_stack_push, cpu_stack_pop, exec_return, exec_call_subroutine,
}

abbrev pub pushed : Machine → ℕ → Machine
pushed m a = record m {
  cpu = record (m.cpu) {
    stack = set m.cpu.stack m.cpu.stack_count (u16 a);
    stack_count = m.cpu.stack_count + 1;
  };
}

abbrev pub popped : Machine → Machine
popped m = record m { cpu = record (m.cpu) { stack_count = m.cpu.stack_count - 1 } }

abbrev pub at_pc : Machine → ℕ → Machine
at_pc m a = record m { cpu = record (m.cpu) { pc = u16 a } }

pub cpu_stack_push_overflow :
    (m : Machine) (a : ℕ)
    → stack_capacity ≤ m.cpu.stack_count
    → cpu_stack_push a m ≡ stop stack_overflow
unfolding cpu_stack_push ◌>>=◌
cpu_stack_push_overflow m a h = ground arith

pub cpu_stack_push_lem :
    (m : Machine) (a : ℕ)
    → length m.cpu.stack ≡ stack_capacity
    → m.cpu.stack_count < stack_capacity
    → cpu_stack_push a m ≡ ok tt (pushed m a)
unfolding cpu_stack_push ◌>>=◌
cpu_stack_push_lem m a e h = ground arith

pub cpu_stack_pop_underflow :
    (m : Machine) → m.cpu.stack_count ≡ 0 → cpu_stack_pop m ≡ stop stack_underflow
unfolding cpu_stack_pop ◌>>=◌
cpu_stack_pop_underflow m h = ground arith

pub cpu_stack_pop_lem :
    (m : Machine)
    → length m.cpu.stack ≡ stack_capacity
    → 0 < m.cpu.stack_count
    → m.cpu.stack_count ≤ stack_capacity
    → cpu_stack_pop m ≡ ok (get_or m.cpu.stack (m.cpu.stack_count - 1) 0) (popped m)
unfolding cpu_stack_pop ◌>>=◌
cpu_stack_pop_lem m e h k =
    ground (arith, get_elem?-eq-get_or m.cpu.stack (m.cpu.stack_count - 1) 0 (omega arith))

pushed-IsValid :
    (m : Machine) (a : ℕ) → m.cpu.stack_count < stack_capacity → IsValid m → IsValid (pushed m a)
pushed-IsValid m a h v = ground (
  arith,
  length-set m.cpu.stack m.cpu.stack_count (u16 a),
  All-set IsU16 m.cpu.stack m.cpu.stack_count (u16 a) v.stack_words (omega arith),
)

popped-IsValid : (m : Machine) → IsValid m → IsValid (popped m)
popped-IsValid m v = ground arith

module _ {F : Type 0} where
  pub Runs-cpu_stack_push : (a : ℕ) → Runs F (cpu_stack_push a)
  Runs-cpu_stack_push a = record {
    at = λ m v. elim (dec_lt m.cpu.stack_count stack_capacity) [
      | yes h ↦ rw (cpu_stack_push_lem m a v.stack_length h) (returns (pushed-IsValid m a h v))
      | no h ↦ rw (cpu_stack_push_overflow m a (omega arith)) (stops stack_overflow)
    ];
  }

  pub Runs-cpu_stack_pop : Runs F cpu_stack_pop
  Runs-cpu_stack_pop = record {
    at = λ m v. elim (dec_lt 0 m.cpu.stack_count) [
      | yes h ↦
          rw (cpu_stack_pop_lem m v.stack_length h v.stack_fits) (returns (popped-IsValid m v))
      | no h ↦ rw (cpu_stack_pop_underflow m (omega arith)) (stops stack_underflow)
    ];
  }

-- 2nnn on a valid machine pushes the program counter and jumps to nnn, or stops the program when
-- the stack is full.
pub exec_call_subroutine_lem :
    (m : Machine) (opcode : ℕ)
    → IsValid m
    → exec_call_subroutine opcode m ≡ (
        if ltb m.cpu.stack_count stack_capacity
        then ok tt (at_pc (pushed m m.cpu.pc) (opcode % 4096))
        else stop stack_overflow)
unfolding exec_call_subroutine ◌>>=◌
exec_call_subroutine_lem m opcode v = elim (dec_lt m.cpu.stack_count stack_capacity) [
  | yes h ↦
      rw (cpu_stack_push_lem m m.cpu.pc v.stack_length h)
        (ground (arith, opcode_decode_address_lem opcode))
  | no h ↦ rw (cpu_stack_push_overflow m m.cpu.pc (omega arith)) (ground arith)
]

-- From a valid machine whose stack is not full, a call and then a return, whatever the operands,
-- come back to the program counter behind the call, with the stack as deep as before and all
-- other state unchanged.
pub exec_return-exec_call_subroutine :
    (m : Machine) (call ret : ℕ)
    → IsValid m
    → m.cpu.stack_count < stack_capacity
    → (exec_call_subroutine call >>= λ _. exec_return ret) m
      ≡ ok tt
          (record m { cpu = record (m.cpu) { stack = set m.cpu.stack m.cpu.stack_count m.cpu.pc } })
unfolding exec_call_subroutine exec_return ◌>>=◌
exec_return-exec_call_subroutine m call ret v h =
    rw
      (
        cpu_stack_push_lem m m.cpu.pc v.stack_length h,
        cpu_stack_pop_lem (at_pc (pushed m m.cpu.pc) (opcode_decode_address call)) stack_length
            (omega arith) (omega arith),
      )
      (ground (arith, get_or-set_self m.cpu.stack m.cpu.stack_count (u16 m.cpu.pc) 0 in_stack))
  where
    stack_length : length (set m.cpu.stack m.cpu.stack_count (u16 m.cpu.pc)) ≡ stack_capacity
    stack_length =
        omega (arith, v.stack_length, length-set m.cpu.stack m.cpu.stack_count (u16 m.cpu.pc))

    in_stack : m.cpu.stack_count < length m.cpu.stack
    in_stack = omega (arith, v.stack_length)
