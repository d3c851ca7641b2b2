-- ===== src/Emulator/Machine.antt =====
-- The machine (machine.h, cpu.h) and the effects of the code that runs on it: the state is passed
-- on, `exit(1)` and failed assertions stop the program, and an access out of bounds, which C leaves
-- undefined, is a fault. The pointers of `struct cpu` lead to the parts of its machine, where
-- `machine_init` sets them.
pub mod Invariant
pub mod Access
use c_lang_examples.Prelude.{
  ℕ, if◌then◌else◌, Option, none, some, List, length, get_elem?, set, ltb, u8, u16,
}
use c_lang_examples.Emulator.Display.{Display}
use c_lang_examples.Emulator.Timer.{Timer}

abbrev pub register_count : ℕ
register_count = 16

-- The flag register.
abbrev pub vf : ℕ
vf = 15

abbrev pub stack_capacity : ℕ
stack_capacity = 12

pub record Cpu : Type 0 where
  pub registers : List ℕ
  pub pc : ℕ
  pub i : ℕ
  pub stack : List ℕ
  pub stack_count : ℕ

pub record Machine : Type 0 where
  pub memory : List ℕ
  pub cpu : Cpu
  pub display : Display
  pub delay_timer : Timer
  pub sound_timer : Timer

-- Why the program stops: one constructor for each `exit`, fatal log record and assertion.
pub data Stop : Type 0 where
  pc_overflow stack_overflow stack_underflow vf_operand unsupported_opcode zero_opcode : Stop
  rom_too_big : Stop

pub data Outcome (A : Type 0) : Type 0 where
  ok : A → Machine → Outcome A
  stop : Stop → Outcome A
  fault : Outcome A

abbrev pub Exec : Type 0 → Type 0
Exec A = Machine → Outcome A

module _ {A : Type 0} where
  unfoldable pub pure : A → Exec A
  pure a m = ok a m

  unfoldable pub halt : Stop → Exec A
  halt e m = stop e

  unfoldable pub gets : (Machine → A) → Exec A
  gets f m = ok (f m) m

  -- A value that is absent after an access out of bounds.
  unfoldable pub or_fault : Option A → Exec A
  or_fault none m = fault
  or_fault (some a) m = ok a m

unfoldable pub modify : (Machine → Machine) → Exec (Unit {0})
modify f m = ok tt (f m)

unfoldable pub modify_cpu : (Cpu → Cpu) → Exec (Unit {0})
modify_cpu f m = ok tt (record m { cpu = f m.cpu })

module _ {A B : Type 0} where
  abbrev pub and_then : Outcome A → (A → Exec B) → Outcome B
  and_then (ok a m) k = k a m
  and_then (stop e) k = stop e
  and_then fault k = fault

  infixl 5 ◌>>=◌ ◌>>◌
  -- Opening this opens the basic actions too.
  unfoldable pub ◌>>=◌ : Exec A → (A → Exec B) → Exec B
  unfolding pure halt gets or_fault modify modify_cpu
  ◌>>=◌ e k = λ m. and_then (e m) k

  abbrev pub ◌>>◌ : Exec A → Exec B → Exec B
  e >> k = e >>= λ _. k

abbrev pub skip : Exec (Unit {0})
skip = pure tt

-- `cpu->registers[x]`
unfoldable pub read_register : ℕ → Exec ℕ
unfolding or_fault
read_register x m = or_fault (get_elem? m.cpu.registers x) m

-- `cpu->registers[x] = v`, with the conversion to `uint8_t`
unfoldable pub write_register : ℕ → ℕ → Exec (Unit {0})
unfolding modify_cpu
write_register x v m =
    if ltb x (length m.cpu.registers)
    then modify_cpu (λ c. record c { registers = set c.registers x (u8 v) }) m
    else fault

-- `cpu->memory[a]`
unfoldable pub read_memory : ℕ → Exec ℕ
unfolding or_fault
read_memory a m = or_fault (get_elem? m.memory a) m

-- `cpu->memory[a] = v`, with the conversion to `uint8_t`
unfoldable pub write_memory : ℕ → ℕ → Exec (Unit {0})
write_memory a v m =
    if ltb a (length m.memory) then ok tt (record m { memory = set m.memory a (u8 v) }) else fault

-- `cpu->pc = a` and `cpu->i = a`, with the conversion to `uint16_t`
unfoldable pub set_pc : ℕ → Exec (Unit {0})
unfolding modify_cpu
set_pc a = modify_cpu (λ c. record c { pc = u16 a })

unfoldable pub set_i : ℕ → Exec (Unit {0})
unfolding modify_cpu
set_i a = modify_cpu (λ c. record c { i = u16 a })
