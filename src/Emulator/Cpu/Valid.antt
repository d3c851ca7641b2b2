-- ===== src/Emulator/Cpu/Valid.antt =====
-- Every instruction but those that access memory or the keymap keeps the machine valid and leaves
-- no array.
use c_lang_examples.Prelude.{ℕ, ◌<◌, false, Option, none, some, arith, length-replicate}
use c_lang_examples.Emulator.Opcode.Fields.{
  opcode_decode_register_x-lt, opcode_decode_register_y-lt,
}
use c_lang_examples.Emulator.Keyboard.{KeyboardState, keyboard_get_pressed_key}
use c_lang_examples.Emulator.Display.{display_clear}
use c_lang_examples.Emulator.Timer.{timer_set_value}
use c_lang_examples.Emulator.Machine.{vf, modify}
use c_lang_examples.Emulator.Machine.Invariant.{returns, Runs, runs_rules}
use c_lang_examples.Emulator.Cpu.Calls.{Runs-cpu_stack_push, Runs-cpu_stack_pop}
use c_lang_examples.Emulator.Cpu.Flow.{
  cpu_pc_advance, cpu_pc_advance_back, exec_goto, exec_if_equals, exec_if_not_equals,
  exec_skip_next_if_vx_equals_vy, exec_if_vx_not_equals_to_vy, exec_jump_to_addr_plus_v0,
  exec_return, exec_call, exec_call_subroutine,
}
use c_lang_examples.Emulator.Cpu.Alu.{
  exec_set_vx_rand_and, exec_set_register, exec_add_to_vx, exec_set_vx_from_vy,
  exec_set_vx_to_vx_or, exec_set_vx_to_vx_and, exec_set_vx_to_vx_xor, exec_vx_plus_vy,
  exec_vx_minus_vy, exec_set_vx_rshift_one, exec_set_vx_vy_minus_vx, exec_set_vx_lshift_one,
}
use c_lang_examples.Emulator.Cpu.Store.{
  exec_set_i_register, exec_add_vx_to_i, exec_set_i_to_sprite_addr,
}
use c_lang_examples.Emulator.Cpu.Io.{
  store_key_or_wait, exec_set_vx_from_key, exec_display_clear, exec_set_vx_from_delay_timer,
  exec_set_delay_timer_from_vx, exec_set_sound_timer,
}

vf-lt : vf < 16
vf-lt = omega arith

zero-lt : 0 < 16
zero-lt = omega arith

module _ {F : Type 0} where
  Runs-display_clear : Runs F (modify (λ m. record m { display = display_clear m.display }))
  unfolding modify display_clear
  Runs-display_clear = record { at = λ m v. returns (ground (arith, length-replicate 2048 false)) }

  Runs-set_delay_timer :
      (n : ℕ) → Runs F (modify (λ m. record m { delay_timer = timer_set_value m.delay_timer n }))
  unfolding modify timer_set_value
  Runs-set_delay_timer n = record { at = λ m v. returns (ground arith) }

  Runs-set_sound_timer :
      (n : ℕ) → Runs F (modify (λ m. record m { sound_timer = timer_set_value m.sound_timer n }))
  unfolding modify timer_set_value
  Runs-set_sound_timer n = record { at = λ m v. returns (ground arith) }

ruleset rules = (
  runs_rules, opcode_decode_register_x-lt, opcode_decode_register_y-lt, vf-lt, zero-lt,
  Runs-display_clear, Runs-set_delay_timer, Runs-set_sound_timer, Runs-cpu_stack_push,
  Runs-cpu_stack_pop,
)

module _ {F : Type 0} where
  pub Runs-cpu_pc_advance : Runs F cpu_pc_advance
  unfolding cpu_pc_advance
  Runs-cpu_pc_advance = search runs_rules

  Runs-cpu_pc_advance_back : Runs F cpu_pc_advance_back
  unfolding cpu_pc_advance_back
  Runs-cpu_pc_advance_back = search runs_rules

  pub Runs-exec_goto : (opcode : ℕ) → Runs F (exec_goto opcode)
  unfolding exec_goto
  Runs-exec_goto opcode = search rules

  pub Runs-exec_if_equals : (opcode : ℕ) → Runs F (exec_if_equals opcode)
  unfolding exec_if_equals
  Runs-exec_if_equals opcode = search (rules, Runs-cpu_pc_advance)

  pub Runs-exec_if_not_equals : (opcode : ℕ) → Runs F (exec_if_not_equals opcode)
  unfolding exec_if_not_equals
  Runs-exec_if_not_equals opcode = search (rules, Runs-cpu_pc_advance)

  pub Runs-exec_skip_next_if_vx_equals_vy :
      (opcode : ℕ) → Runs F (exec_skip_next_if_vx_equals_vy opcode)
  unfolding exec_skip_next_if_vx_equals_vy
  Runs-exec_skip_next_if_vx_equals_vy opcode = search (rules, Runs-cpu_pc_advance)

  pub Runs-exec_if_vx_not_equals_to_vy : (opcode : ℕ) → Runs F (exec_if_vx_not_equals_to_vy opcode)
  unfolding exec_if_vx_not_equals_to_vy
  Runs-exec_if_vx_not_equals_to_vy opcode = search (rules, Runs-cpu_pc_advance)

  pub Runs-exec_jump_to_addr_plus_v0 : (opcode : ℕ) → Runs F (exec_jump_to_addr_plus_v0 opcode)
  unfolding exec_jump_to_addr_plus_v0
  Runs-exec_jump_to_addr_plus_v0 opcode = search rules

  pub Runs-exec_return : (opcode : ℕ) → Runs F (exec_return opcode)
  unfolding exec_return
  Runs-exec_return opcode = search rules

  pub Runs-exec_call : (opcode : ℕ) → Runs F (exec_call opcode)
  unfolding exec_call
  Runs-exec_call opcode = search rules

  pub Runs-exec_call_subroutine : (opcode : ℕ) → Runs F (exec_call_subroutine opcode)
  unfolding exec_call_subroutine
  Runs-exec_call_subroutine opcode = search rules

  pub Runs-exec_set_register : (opcode : ℕ) → Runs F (exec_set_register opcode)
  unfolding exec_set_register
  Runs-exec_set_register opcode = search rules depth 14

  pub Runs-exec_add_to_vx : (opcode : ℕ) → Runs F (exec_add_to_vx opcode)
  unfolding exec_add_to_vx
  Runs-exec_add_to_vx opcode = search rules depth 14

  pub Runs-exec_set_vx_from_vy : (opcode : ℕ) → Runs F (exec_set_vx_from_vy opcode)
  unfolding exec_set_vx_from_vy
  Runs-exec_set_vx_from_vy opcode = search rules depth 14

  pub Runs-exec_set_vx_to_vx_or : (opcode : ℕ) → Runs F (exec_set_vx_to_vx_or opcode)
  unfolding exec_set_vx_to_vx_or
  Runs-exec_set_vx_to_vx_or opcode = search rules depth 14

  pub Runs-exec_set_vx_to_vx_and : (opcode : ℕ) → Runs F (exec_set_vx_to_vx_and opcode)
  unfolding exec_set_vx_to_vx_and
  Runs-exec_set_vx_to_vx_and opcode = search rules depth 14

  pub Runs-exec_set_vx_to_vx_xor : (opcode : ℕ) → Runs F (exec_set_vx_to_vx_xor opcode)
  unfolding exec_set_vx_to_vx_xor
  Runs-exec_set_vx_to_vx_xor opcode = search rules depth 14

  pub Runs-exec_vx_plus_vy : (opcode : ℕ) → Runs F (exec_vx_plus_vy opcode)
  unfolding exec_vx_plus_vy
  Runs-exec_vx_plus_vy opcode = search rules depth 14

  pub Runs-exec_vx_minus_vy : (opcode : ℕ) → Runs F (exec_vx_minus_vy opcode)
  unfolding exec_vx_minus_vy
  Runs-exec_vx_minus_vy opcode = search rules depth 14

  pub Runs-exec_set_vx_rshift_one : (opcode : ℕ) → Runs F (exec_set_vx_rshift_one opcode)
  unfolding exec_set_vx_rshift_one
  Runs-exec_set_vx_rshift_one opcode = search rules depth 14

  pub Runs-exec_set_vx_vy_minus_vx : (opcode : ℕ) → Runs F (exec_set_vx_vy_minus_vx opcode)
  unfolding exec_set_vx_vy_minus_vx
  Runs-exec_set_vx_vy_minus_vx opcode = search rules depth 14

  pub Runs-exec_set_vx_lshift_one : (opcode : ℕ) → Runs F (exec_set_vx_lshift_one opcode)
  unfolding exec_set_vx_lshift_one
  Runs-exec_set_vx_lshift_one opcode = search rules depth 14

  pub Runs-exec_set_i_register : (opcode : ℕ) → Runs F (exec_set_i_register opcode)
  unfolding exec_set_i_register
  Runs-exec_set_i_register opcode = search rules

  pub Runs-exec_add_vx_to_i : (opcode : ℕ) → Runs F (exec_add_vx_to_i opcode)
  unfolding exec_add_vx_to_i
  Runs-exec_add_vx_to_i opcode = search rules

  pub Runs-exec_set_i_to_sprite_addr : (opcode : ℕ) → Runs F (exec_set_i_to_sprite_addr opcode)
  unfolding exec_set_i_to_sprite_addr
  Runs-exec_set_i_to_sprite_addr opcode = search rules

  pub Runs-exec_display_clear : (opcode : ℕ) → Runs F (exec_display_clear opcode)
  unfolding exec_display_clear
  Runs-exec_display_clear opcode = search rules

  pub Runs-exec_set_vx_from_delay_timer :
      (opcode : ℕ) → Runs F (exec_set_vx_from_delay_timer opcode)
  unfolding exec_set_vx_from_delay_timer
  Runs-exec_set_vx_from_delay_timer opcode = search rules

  pub Runs-exec_set_delay_timer_from_vx :
      (opcode : ℕ) → Runs F (exec_set_delay_timer_from_vx opcode)
  unfolding exec_set_delay_timer_from_vx
  Runs-exec_set_delay_timer_from_vx opcode = search rules

  pub Runs-exec_set_sound_timer : (opcode : ℕ) → Runs F (exec_set_sound_timer opcode)
  unfolding exec_set_sound_timer
  Runs-exec_set_sound_timer opcode = search rules

  pub Runs-exec_set_vx_rand_and : (rand opcode : ℕ) → Runs F (exec_set_vx_rand_and rand opcode)
  unfolding exec_set_vx_rand_and
  Runs-exec_set_vx_rand_and rand opcode = search rules

  Runs-store_key_or_wait : (x : ℕ) (key : Option ℕ) → x < 16 → Runs F (store_key_or_wait x key)
  unfolding store_key_or_wait
  Runs-store_key_or_wait x (some key) h = search rules
  Runs-store_key_or_wait x none h = Runs-cpu_pc_advance_back

  pub Runs-exec_set_vx_from_key :
      (keyboard_state : KeyboardState) (opcode : ℕ)
      → Runs F (exec_set_vx_from_key keyboard_state opcode)
  unfolding exec_set_vx_from_key
  Runs-exec_set_vx_from_key keyboard_state opcode =
      Runs-store_key_or_wait _ (keyboard_get_pressed_key keyboard_state)
        (opcode_decode_register_x-lt opcode)
