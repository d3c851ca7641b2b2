-- ===== src/Emulator/Cpu/Io.antt =====
-- The instructions on the display, the keyboard and the timers (00E0, Dxyn, Ex9E, ExA1, Fx07,
-- Fx0A, Fx15, Fx18).
use c_lang_examples.Prelude.{ℕ, leb, not, if◌then◌else◌, Option, none, some, drop}
use c_lang_examples.Emulator.Opcode.{
  opcode_decode_register_x, opcode_decode_register_y, opcode_decode_const_4bit,
}
use c_lang_examples.Emulator.Memory.{memory_size}
use c_lang_examples.Emulator.Display.{display_clear, display_draw_sprite}
use c_lang_examples.Emulator.Keyboard.{
  KeyboardState, keyboard_is_key_pressed, keyboard_get_pressed_key,
}
use c_lang_examples.Emulator.Timer.{timer_get_value, timer_set_value}
use c_lang_examples.Emulator.Machine.{
  Exec, fault, ◌>>=◌, ◌>>◌, gets, or_fault, skip, modify, vf, read_register, write_register,
}
use c_lang_examples.Emulator.Cpu.Flow.{cpu_pc_advance, cpu_pc_advance_back}

unfoldable pub exec_display_clear : ℕ → Exec (Unit {0})
exec_display_clear opcode = modify (λ m. record m { display = display_clear m.display })

-- The sprite is the memory from the address I on; the address may be one past the end.
unfoldable pub exec_display_draw_sprite_at : ℕ → Exec (Unit {0})
exec_display_draw_sprite_at opcode = do
  vx ← read_register (opcode_decode_register_x opcode)
  vy ← read_register (opcode_decode_register_y opcode)
  i ← gets (λ m. m.cpu.i)
  if leb i memory_size then skip else (λ m. fault)
  drawn ←
      gets
        λ m. display_draw_sprite m.display vx vy (drop i m.memory) (opcode_decode_const_4bit opcode)
  (display, pixel_erased) ← or_fault drawn
  modify (λ m. record m { display = display })
  write_register vf (if pixel_erased then 1 else 0)

unfoldable pub exec_if_key_equals_to_vx : KeyboardState → ℕ → Exec (Unit {0})
exec_if_key_equals_to_vx keyboard_state opcode = do
  vx ← read_register (opcode_decode_register_x opcode)
  pressed ← or_fault (keyboard_is_key_pressed keyboard_state vx)
  if pressed then cpu_pc_advance else skip

unfoldable pub exec_if_key_not_equals_to_vx : KeyboardState → ℕ → Exec (Unit {0})
exec_if_key_not_equals_to_vx keyboard_state opcode = do
  vx ← read_register (opcode_decode_register_x opcode)
  pressed ← or_fault (keyboard_is_key_pressed keyboard_state vx)
  if not pressed then cpu_pc_advance else skip

unfoldable pub exec_set_vx_from_delay_timer : ℕ → Exec (Unit {0})
exec_set_vx_from_delay_timer opcode = do
  value ← gets (λ m. timer_get_value m.delay_timer)
  write_register (opcode_decode_register_x opcode) value

-- Stores the key in Vx, or steps back so that the instruction is executed again.
unfoldable pub store_key_or_wait : ℕ → Option ℕ → Exec (Unit {0})
store_key_or_wait x (some key) = write_register x key
store_key_or_wait x none = cpu_pc_advance_back

unfoldable pub exec_set_vx_from_key : KeyboardState → ℕ → Exec (Unit {0})
unfolding store_key_or_wait
exec_set_vx_from_key keyboard_state opcode =
    store_key_or_wait (opcode_decode_register_x opcode) (keyboard_get_pressed_key keyboard_state)

unfoldable pub exec_set_delay_timer_from_vx : ℕ → Exec (Unit {0})
exec_set_delay_timer_from_vx opcode = do
  vx ← read_register (opcode_decode_register_x opcode)
  modify (λ m. record m { delay_timer = timer_set_value m.delay_timer vx })

unfoldable pub exec_set_sound_timer : ℕ → Exec (Unit {0})
exec_set_sound_timer opcode = do
  vx ← read_register (opcode_decode_register_x opcode)
  modify (λ m. record m { sound_timer = timer_set_value m.sound_timer vx })
