-- ===== src/Emulator/Machine/Invariant.antt =====
-- The well-formed machine, and the rules by which the code keeps it so.
use c_lang_examples.Prelude.{
  ℕ, ◌≤◌, ◌<◌, ◌≡◌, ◌⊎◌, inl, inr, refl, Bool, true, false, if◌then◌else◌, length, get_elem?, arith,
  All, All-set, IsByte, IsU16, u8, length-set, get_elem?-eq-get_or, lt→ltb, Bool-cases, ltb,
  Option-cases,
}
use c_lang_examples.Emulator.Memory.{memory_size}
use c_lang_examples.Emulator.Machine.{
  Machine, Stop, Outcome, ok, stop, fault, Exec, and_then, ◌>>=◌, ◌>>◌, pure, halt, gets, skip,
  register_count, stack_capacity, read_register, write_register, read_memory, write_memory, set_pc,
  set_i,
}

-- The arrays have their sizes and hold values of their types; no more addresses are stacked than
-- the stack can hold.
pub record IsValid (m : Machine) : Type 0 where
  pub memory_length : length m.memory ≡ memory_size
  pub memory_bytes : All IsByte m.memory
  pub registers_length : length m.cpu.registers ≡ register_count
  pub registers_bytes : All IsByte m.cpu.registers
  pub pc_word : IsU16 m.cpu.pc
  pub i_word : IsU16 m.cpu.i
  pub stack_length : length m.cpu.stack ≡ stack_capacity
  pub stack_words : All IsU16 m.cpu.stack
  pub stack_fits : m.cpu.stack_count ≤ stack_capacity
  pub display_length : length m.display.buffer ≡ 2048
  pub delay_byte : IsByte m.delay_timer.value
  pub sound_byte : IsByte m.sound_timer.value

-- How an execution ends: with a result and a machine that satisfy `P`, by a stop, or by a fault,
-- which is excused by `F`.
pub data Meets (F : Type 0) {A : Type 0} (P : A → Machine → Type 0) : Outcome A → Type 0 where
  returns : {a : A} {m : Machine} → P a m → Meets F P (ok a m)
  stops : (e : Stop) → Meets F P (stop e)
  faults : F → Meets F P fault

module _ {F A : Type 0} {P : A → Machine → Type 0} where
  pub Meets-excuse : {G : Type 0} {r : Outcome A} → (F → G) → Meets F P r → Meets G P r
  Meets-excuse f (returns p) = returns p
  Meets-excuse f (stops e) = stops e
  Meets-excuse f (faults x) = faults (f x)

  pub Meets-bind :
      {B : Type 0} {Q : B → Machine → Type 0} {r : Outcome A} {k : A → Exec B}
      → Meets F P r
      → ((a : A) (m : Machine) → P a m → Meets F Q (k a m))
      → Meets F Q (and_then r k)
  Meets-bind (returns p) next = next _ _ p
  Meets-bind (stops e) next = stops e
  Meets-bind (faults x) next = faults x

  -- The same, where the continuation is told what has been returned.
  pub Meets-bind_eq :
      {B : Type 0} {Q : B → Machine → Type 0} {r : Outcome A} {k : A → Exec B}
      → Meets F P r
      → ((a : A) (m : Machine) → r ≡ ok a m → P a m → Meets F Q (k a m))
      → Meets F Q (and_then r k)
  Meets-bind_eq (returns p) next = next _ _ refl p
  Meets-bind_eq (stops e) next = stops e
  Meets-bind_eq (faults x) next = faults x

-- `e` keeps the machine valid, and faults only where `F` excuses it.
pub record Runs (F : Type 0) {A : Type 0} (e : Exec A) : Type 0 where
  pub at : (m : Machine) → IsValid m → Meets F (λ _ m'. IsValid m') (e m)

module _ {F A : Type 0} where
  pub Runs-pure : (a : A) → Runs F (pure a)
  unfolding pure
  Runs-pure a = record { at = λ m v. returns v }

  pub Runs-halt : (e : Stop) → Runs F (halt {A = A} e)
  unfolding halt
  Runs-halt e = record { at = λ m v. stops e }

  pub Runs-gets : (f : Machine → A) → Runs F (gets f)
  unfolding gets
  Runs-gets f = record { at = λ m v. returns v }

  pub Runs-if : (b : Bool) (e f : Exec A) → Runs F e → Runs F f → Runs F (if b then e else f)
  Runs-if true e f he hf = he
  Runs-if false e f he hf = hf

  pub Runs-bind :
      {B : Type 0} (e : Exec A) (k : A → Exec B)
      → Runs F e
      → ((a : A) → Runs F (k a))
      → Runs F (e >>= k)
  unfolding ◌>>=◌
  Runs-bind e k he hk = record { at = λ m v. Meets-bind (he.at m v) (λ a m' v'. (hk a).at m' v') }

module _ {F : Type 0} where
  pub Runs-read_register : (x : ℕ) → x < 16 → Runs F (read_register x)
  unfolding read_register
  Runs-read_register x h = record {
    at = λ m v.
        rw (get_elem?-eq-get_or m.cpu.registers x 0 (omega (arith, v.registers_length)))
          (returns v);
  }

  pub Runs-write_register : (x v : ℕ) → x < 16 → Runs F (write_register x v)
  unfolding write_register
  Runs-write_register x n h = record {
    at = λ m v. rw (lt→ltb x (length m.cpu.registers) (omega (arith, v.registers_length))) (
        returns (
          ground (
            arith,
            length-set m.cpu.registers x (u8 n),
            All-set IsByte m.cpu.registers x (u8 n) v.registers_bytes (omega arith),
          )));
  }

  -- An access that is not known to lie in the memory is an excuse.
  pub Runs-write_memory : (a v : ℕ) → (a < memory_size) ⊎ F → Runs F (write_memory a v)
  unfolding write_memory
  Runs-write_memory a n h = record {
    at = λ m v. elim (Bool-cases (ltb a (length m.memory))) [
      | inl inside ↦ rw inside (
          returns (
            ground (
              arith,
              length-set m.memory a (u8 n),
              All-set IsByte m.memory a (u8 n) v.memory_bytes (omega arith),
            )))
      | inr outside ↦ rw outside (faults (excuse v h outside))
    ];
  }
    where
      excuse :
          {m : Machine} → IsValid m → (a < memory_size) ⊎ F → ltb a (length m.memory) ≡ false → F
      excuse v (inl inside) e = absurd (ground (arith, v.memory_length))
      excuse v (inr x) e = x

  pub Runs-read_memory : (a : ℕ) → (a < memory_size) ⊎ F → Runs F (read_memory a)
  unfolding read_memory
  Runs-read_memory a (inl inside) = record {
    at = λ m v. rw (get_elem?-eq-get_or m.memory a 0 (omega (arith, v.memory_length))) (returns v);
  }
  Runs-read_memory a (inr x) = record {
    at = λ m v. elim (Option-cases (get_elem? m.memory a)) [
      | inl outside ↦ rw outside (faults x)
      | inr (byte, inside) ↦ rw inside (returns v)
    ];
  }

  pub Runs-set_pc : (a : ℕ) → Runs F (set_pc a)
  unfolding set_pc
  Runs-set_pc a = record { at = λ m v. returns (ground arith) }

  pub Runs-set_i : (a : ℕ) → Runs F (set_i a)
  unfolding set_i
  Runs-set_i a = record { at = λ m v. returns (ground arith) }

  pub Runs-if_stop :
      {A : Type 0} (m : Machine) (b : Bool) (e : Stop) (k : Exec A)
      → (b ≡ false → Meets F (λ _ m'. IsValid m') (k m))
      → Meets F (λ _ m'. IsValid m') (((if b then halt e else skip) >> k) m)
  unfolding ◌>>=◌
  Runs-if_stop m true e k h = stops e
  Runs-if_stop m false e k h = h refl

pub ruleset runs_rules = (
  Runs-pure, Runs-halt, Runs-gets, Runs-if, Runs-bind, Runs-read_register, Runs-write_register,
  Runs-set_pc, Runs-set_i,
)
