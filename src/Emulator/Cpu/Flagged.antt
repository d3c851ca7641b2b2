-- ===== src/Emulator/Cpu/Flagged.antt =====
-- A machine after the writing of the flag register and of one other.
use c_lang_examples.Prelude.{
  ℕ, ◌<◌, ◌≡◌, ◌≢◌, refl, sym, arith, false, ◌||◌, ◌==◌, length, set, u8, length-set,
  get_or-set_self, get_or-set_ne,
}
use c_lang_examples.Emulator.Machine.{Machine, vf, register_count}
use c_lang_examples.Emulator.Machine.Access.{register, with_register, SameButRegisters}

-- `after` differs from `m` in Vx and VF at most; VF is a bit and Vx a byte.
pub record Flagged (m : Machine) (x : ℕ) (after : Machine) : Type 0 where
  pub flag_bit : register after vf < 2
  pub result_byte : register after x < 256
  pub others : (r : ℕ) → r ≢ x → r ≢ vf → register after r ≡ register m r
  pub rest : SameButRegisters m after

abbrev pub flagged : Machine → ℕ → ℕ → ℕ → Machine
flagged m flag x v = with_register (with_register m vf flag) x v

module _ (m : Machine) (flag x v : ℕ) (len : length m.cpu.registers ≡ register_count)
    (hx : x < register_count) (ne : x ≢ vf) where
  pub register-flagged_flag : register (flagged m flag x v) vf ≡ u8 flag
  register-flagged_flag =
      rw (get_or-set_ne (set m.cpu.registers vf (u8 flag)) x vf (u8 v) 0 ne)
        (get_or-set_self m.cpu.registers vf (u8 flag) 0 (omega arith))

  pub register-flagged_result : register (flagged m flag x v) x ≡ u8 v
  register-flagged_result =
      get_or-set_self (set m.cpu.registers vf (u8 flag)) x (u8 v) 0
        (omega (arith, length-set m.cpu.registers vf (u8 flag)))

  pub flagged-Flagged : flag < 2 → Flagged m x (flagged m flag x v)
  flagged-Flagged h = record {
    flag_bit = rw register-flagged_flag (omega arith);
    result_byte = rw register-flagged_result (omega arith);
    others = λ r nx nf. rw (
      get_or-set_ne (set m.cpu.registers vf (u8 flag)) x r (u8 v) 0 (λ e. nx (sym e)),
      get_or-set_ne m.cpu.registers vf r (u8 flag) 0 (λ e. nf (sym e)),
    );
    rest = record {
      memory = refl;
      pc = refl;
      i = refl;
      stack = refl;
      stack_count = refl;
      display = refl;
      delay_timer = refl;
      sound_timer = refl;
    };
  }

module _ (m : Machine) (flag : ℕ) where
  -- The other registers are the same before and after the flag is written.
  pub register-with_flag : (r : ℕ) → r ≢ vf → register (with_register m vf flag) r ≡ register m r
  register-with_flag r nf = get_or-set_ne m.cpu.registers vf r (u8 flag) 0 (λ e. nf (sym e))

  pub length-with_flag :
      length m.cpu.registers ≡ register_count
      → length (with_register m vf flag).cpu.registers ≡ register_count
  length-with_flag len = omega (arith, length-set m.cpu.registers vf (u8 flag))

pub no_vf : {x y : ℕ} → x ≢ vf → y ≢ vf → (x == vf || y == vf) ≡ false
no_vf p q = ground arith

pub not_vf : {x : ℕ} → x ≢ vf → (x == vf) ≡ false
not_vf p = ground arith
