-- ===== src/Emulator/Cpu/Safety.antt =====
-- A step of the processor keeps the machine valid; an access out of bounds needs one of the
-- instructions, and one of the operands, that are listed here.
use c_lang_examples.Prelude.{
  ℕ, ◌+◌, ◌≤◌, ◌<◌, ◌≡◌, ◌⊎◌, refl, inl, inr, bit_and, Bool, true, false, arith, ◌==◌,
  if◌then◌else◌,
}
use c_lang_examples.Emulator.Opcode.{opcode_decode_register_x, opcode_decode_const_4bit}
use c_lang_examples.Emulator.Memory.{memory_size}
use c_lang_examples.Emulator.Machine.{Machine, Exec, unsupported_opcode}
use c_lang_examples.Emulator.Machine.Invariant.{IsValid, Meets-excuse, Runs, Runs-halt}
use c_lang_examples.Emulator.Machine.Access.{register}
use c_lang_examples.Emulator.Cpu.Step.{Env, cpu_decode_and_exec_opcode}
use c_lang_examples.Emulator.Cpu.Store.{exec_set_bcd, exec_reg_dump, exec_reg_load}
use c_lang_examples.Emulator.Cpu.Io.{
  exec_if_key_equals_to_vx, exec_if_key_not_equals_to_vx, exec_display_draw_sprite_at,
}
use c_lang_examples.Emulator.Cpu.Valid.{
  Runs-exec_display_clear, Runs-exec_return, Runs-exec_call, Runs-exec_goto,
  Runs-exec_call_subroutine, Runs-exec_if_equals, Runs-exec_if_not_equals,
  Runs-exec_skip_next_if_vx_equals_vy, Runs-exec_set_register, Runs-exec_add_to_vx,
  Runs-exec_set_vx_from_vy, Runs-exec_set_vx_to_vx_or, Runs-exec_set_vx_to_vx_and,
  Runs-exec_set_vx_to_vx_xor, Runs-exec_vx_plus_vy, Runs-exec_vx_minus_vy,
  Runs-exec_set_vx_rshift_one, Runs-exec_set_vx_vy_minus_vx, Runs-exec_set_vx_lshift_one,
  Runs-exec_if_vx_not_equals_to_vy, Runs-exec_set_i_register, Runs-exec_jump_to_addr_plus_v0,
  Runs-exec_set_vx_from_delay_timer, Runs-exec_set_delay_timer_from_vx, Runs-exec_set_sound_timer,
  Runs-exec_add_vx_to_i, Runs-exec_set_i_to_sprite_addr, Runs-exec_set_vx_rand_and,
  Runs-exec_set_vx_from_key,
}
use c_lang_examples.Emulator.Cpu.Bounds.{
  Lands, exec_set_bcd-Lands, exec_reg_dump-Lands, exec_reg_load-Lands,
  exec_if_key_equals_to_vx-Lands, exec_if_key_not_equals_to_vx-Lands,
  exec_display_draw_sprite_at-Lands,
}

-- The opcode is an instruction that leaves an array on this machine: a key test of a key above 15,
-- digits, registers or a sprite that do not fit between the address register and the end of the
-- memory.
pub data Overrun (m : Machine) (opcode : ℕ) : Type 0 where
  key_out :
      (bit_and opcode 0xF0FF ≡ 0xE09E) ⊎ (bit_and opcode 0xF0FF ≡ 0xE0A1)
      → 16 ≤ register m (opcode_decode_register_x opcode)
      → Overrun m opcode
  bcd_out : bit_and opcode 0xF0FF ≡ 0xF033 → memory_size ≤ m.cpu.i + 2 → Overrun m opcode
  registers_out :
      (bit_and opcode 0xF0FF ≡ 0xF055) ⊎ (bit_and opcode 0xF0FF ≡ 0xF065)
      → memory_size ≤ m.cpu.i + opcode_decode_register_x opcode
      → Overrun m opcode
  sprite_out :
      bit_and opcode 0xF000 ≡ 0xD000
      → memory_size < m.cpu.i + opcode_decode_const_4bit opcode
      → Overrun m opcode

-- `Lands` of one machine, for an instruction that is a choice.
record From (m : Machine) (F : Type 0) (e : Exec (Unit {0})) : Type 0 where
  lands : Lands F (e m)

module _ {m : Machine} {F : Type 0} where
  From-Runs : {e : Exec (Unit {0})} → IsValid m → Runs F e → From m F e
  From-Runs v r = record { lands = r.at m v }

  From-if :
      {e f : Exec (Unit {0})} (b : Bool)
      → (b ≡ true → From m F e)
      → From m F f
      → From m F (if b then e else f)
  From-if true he hf = he refl
  From-if false he hf = hf

==→eq : {a b : ℕ} → (a == b) ≡ true → a ≡ b
==→eq h = ground arith

module _ (env : Env) (opcode : ℕ) (m : Machine) (v : IsValid m) where
  simple :
      {b : Bool} {e : Exec (Unit {0})}
      → Runs (Overrun m opcode) e
      → b ≡ true
      → From m (Overrun m opcode) e
  simple r _ = From-Runs v r

  key_test :
      (bit_and opcode 0xF0FF == 0xE09E) ≡ true
      → From m (Overrun m opcode) (exec_if_key_equals_to_vx env.keyboard_state opcode)
  key_test e = record {
    lands =
        Meets-excuse (key_out (inl (==→eq e)))
          (exec_if_key_equals_to_vx-Lands m env.keyboard_state opcode v);
  }

  no_key_test :
      (bit_and opcode 0xF0FF == 0xE0A1) ≡ true
      → From m (Overrun m opcode) (exec_if_key_not_equals_to_vx env.keyboard_state opcode)
  no_key_test e = record {
    lands =
        Meets-excuse (key_out (inr (==→eq e)))
          (exec_if_key_not_equals_to_vx-Lands m env.keyboard_state opcode v);
  }

  digits :
      (bit_and opcode 0xF0FF == 0xF033) ≡ true → From m (Overrun m opcode) (exec_set_bcd opcode)
  digits e = record { lands = Meets-excuse (bcd_out (==→eq e)) (exec_set_bcd-Lands m opcode v) }

  dump : (bit_and opcode 0xF0FF == 0xF055) ≡ true → From m (Overrun m opcode) (exec_reg_dump opcode)
  dump e = record {
    lands = Meets-excuse (registers_out (inl (==→eq e))) (exec_reg_dump-Lands m opcode v);
  }

  load : (bit_and opcode 0xF0FF == 0xF065) ≡ true → From m (Overrun m opcode) (exec_reg_load opcode)
  load e = record {
    lands = Meets-excuse (registers_out (inr (==→eq e))) (exec_reg_load-Lands m opcode v);
  }

  sprite :
      (bit_and opcode 0xF000 == 0xD000) ≡ true
      → From m (Overrun m opcode) (exec_display_draw_sprite_at opcode)
  sprite e = record {
    lands = Meets-excuse (sprite_out (==→eq e)) (exec_display_draw_sprite_at-Lands m opcode v);
  }

  dispatch : From m (Overrun m opcode) (cpu_decode_and_exec_opcode env opcode)
  unfolding cpu_decode_and_exec_opcode
  dispatch = From-if (opcode == 0x00E0) (simple (Runs-exec_display_clear opcode)) (
      From-if (opcode == 0x00EE) (simple (Runs-exec_return opcode)) (
        From-if (bit_and opcode 0xF000 == 0x0000) (simple (Runs-exec_call opcode)) (
          From-if (bit_and opcode 0xF000 == 0x1000) (simple (Runs-exec_goto opcode)) (
            From-if (bit_and opcode 0xF000 == 0x2000) (simple (Runs-exec_call_subroutine opcode)) (
              From-if (bit_and opcode 0xF000 == 0x3000) (simple (Runs-exec_if_equals opcode)) (
                From-if (bit_and opcode 0xF000 == 0x4000) (simple (Runs-exec_if_not_equals opcode))
                  (From-if (bit_and opcode 0xF00F == 0x5000)
                    (simple (Runs-exec_skip_next_if_vx_equals_vy opcode))
                    (From-if (bit_and opcode 0xF000 == 0x6000)
                      (simple (Runs-exec_set_register opcode))
                      (From-if (bit_and opcode 0xF000 == 0x7000)
                        (simple (Runs-exec_add_to_vx opcode))
                        (From-if (bit_and opcode 0xF00F == 0x8000)
                          (simple (Runs-exec_set_vx_from_vy opcode))
                          (From-if (bit_and opcode 0xF00F == 0x8001)
                            (simple (Runs-exec_set_vx_to_vx_or opcode))
                            (From-if (bit_and opcode 0xF00F == 0x8002)
                              (simple (Runs-exec_set_vx_to_vx_and opcode))
                              (From-if (bit_and opcode 0xF00F == 0x8003)
                                (simple (Runs-exec_set_vx_to_vx_xor opcode))
                                (From-if (bit_and opcode 0xF00F == 0x8004)
                                  (simple (Runs-exec_vx_plus_vy opcode))
                                  (From-if (bit_and opcode 0xF00F == 0x8005)
                                    (simple (Runs-exec_vx_minus_vy opcode))
                                    (From-if (bit_and opcode 0xF00F == 0x8006)
                                      (simple (Runs-exec_set_vx_rshift_one opcode))
                                      (From-if (bit_and opcode 0xF00F == 0x8007)
                                        (simple (Runs-exec_set_vx_vy_minus_vx opcode))
                                        (From-if (bit_and opcode 0xF00F == 0x800E)
                                          (simple (Runs-exec_set_vx_lshift_one opcode))
                                          (From-if (bit_and opcode 0xF00F == 0x9000)
                                            (simple (Runs-exec_if_vx_not_equals_to_vy opcode))
                                            (From-if (bit_and opcode 0xF000 == 0xA000)
                                              (simple (Runs-exec_set_i_register opcode))
                                              (From-if (bit_and opcode 0xF000 == 0xB000)
                                                (simple (Runs-exec_jump_to_addr_plus_v0 opcode))
                                                (From-if (bit_and opcode 0xF000 == 0xC000)
                                                  (simple
                                                    (Runs-exec_set_vx_rand_and env.rand opcode))
                                                  (From-if (bit_and opcode 0xF000 == 0xD000)
                                                    (sprite)
                                                    (From-if (bit_and opcode 0xF0FF == 0xE09E)
                                                      (key_test)
                                                      (From-if (bit_and opcode 0xF0FF == 0xE0A1)
                                                        (no_key_test)
                                                        (From-if (bit_and opcode 0xF0FF == 0xF007)
                                                          (simple (
                                                            Runs-exec_set_vx_from_delay_timer
                                                            opcode))
                                                          (From-if (bit_and opcode 0xF0FF == 0xF00A)
                                                            (simple (
                                                            Runs-exec_set_vx_from_key
                                                            env.keyboard_state opcode))
                                                            (From-if
                                                            (bit_and opcode 0xF0FF == 0xF015)
                                                            (simple (
                                                            Runs-exec_set_delay_timer_from_vx
                                                            opcode))
                                                            (From-if
                                                            (bit_and opcode 0xF0FF == 0xF018)
                                                            (simple
                                                            (Runs-exec_set_sound_timer opcode))
                                                            (From-if
                                                            (bit_and opcode 0xF0FF == 0xF01E)
                                                            (simple (Runs-exec_add_vx_to_i opcode))
                                                            (From-if
                                                            (bit_and opcode 0xF0FF == 0xF029)
                                                            (simple
                                                            (Runs-exec_set_i_to_sprite_addr opcode))
                                                            (From-if
                                                            (bit_and opcode 0xF0FF == 0xF033)
                                                            (digits)
                                                            (From-if
                                                            (bit_and opcode 0xF0FF == 0xF055) (dump)
                                                            (From-if
                                                            (bit_and opcode 0xF0FF == 0xF065) (load)
                                                            (From-Runs v (
                                                            Runs-halt
                                                            unsupported_opcode))))))))))))))))))))))))))))))))))))

-- The execution of any opcode on a valid machine ends in a valid machine or stops the program,
-- unless the opcode is one of the listed overruns on this machine.
pub cpu_decode_and_exec_opcode-Lands :
    (env : Env) (opcode : ℕ) (m : Machine)
    → IsValid m
    → Lands (Overrun m opcode) (cpu_decode_and_exec_opcode env opcode m)
cpu_decode_and_exec_opcode-Lands env opcode m v = (dispatch env opcode m v).lands
