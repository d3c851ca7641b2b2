-- ===== src/Emulator/Cpu/Bounds.antt =====
-- The instructions that access memory or the keymap: the machine stays valid, and the only accesses
-- out of bounds are those that start from an address register or a key value that is too large.
use native.Mathlib.Decide.{dec_le, dec_lt}
use c_lang_examples.Prelude.{
  ℕ, zero, suc, ◌+◌, ◌≤◌, ◌<◌, ◌≡◌, ◌⊎◌, inl, inr, not, Option-cases, none, arith,
  get_elem?-eq-get_or, u16, drop, length-drop, leb, le→leb, leb→le, Bool-cases, if◌then◌else◌,
}
use c_lang_examples.Emulator.Opcode.{
  opcode_decode_register_x, opcode_decode_register_y, opcode_decode_const_4bit,
}
use c_lang_examples.Emulator.Opcode.Fields.{
  opcode_decode_register_x-lt, opcode_decode_register_y-lt, opcode_decode_const_4bit_lem,
}
use c_lang_examples.Emulator.Memory.{memory_size}
use c_lang_examples.Emulator.Keyboard.{KeyboardState, sc_x, keymap, keyboard_is_key_pressed}
use c_lang_examples.Emulator.Display.{Drawn, display_draw_sprite}
use c_lang_examples.Emulator.Display.Bytes.{Draws}
use c_lang_examples.Emulator.Display.Pixels.{
  sprite_bit, display_draw_sprite-Draws, display_draw_sprite-none,
}
use c_lang_examples.Emulator.Machine.{
  Machine, Outcome, fault, or_fault, vf, ◌>>=◌, ◌>>◌, skip, modify, write_register, write_memory,
}
use c_lang_examples.Emulator.Machine.Invariant.{
  IsValid, Meets, faults, Runs, Runs-bind, Runs-if, Runs-read_register, Runs-read_memory,
  Runs-write_memory, Runs-write_register, Runs-pure,
}
use c_lang_examples.Emulator.Machine.Access.{register, read_register_lem}
use c_lang_examples.Emulator.Cpu.Valid.{Runs-cpu_pc_advance}
use c_lang_examples.Emulator.Cpu.Store.{
  exec_set_bcd, exec_reg_dump, exec_reg_load, reg_dump_from, reg_load_from,
}
use c_lang_examples.Emulator.Cpu.Io.{
  exec_display_draw_sprite_at, exec_if_key_equals_to_vx, exec_if_key_not_equals_to_vx,
}

-- The outcome is a valid machine, a stop, or a fault for which `F` holds.
abbrev pub Lands : Type 0 → Outcome (Unit {0}) → Type 0
Lands F r = Meets F (λ _ m'. IsValid m') r

Runs-write_bcd :
    (i a b c : ℕ)
    → Runs
        (memory_size ≤ i + 2)
        (write_memory i a >> (write_memory (i + 1) b >> write_memory (i + 2) c))
Runs-write_bcd i a b c = Runs-bind _ _ (Runs-write_memory _ _ (omega arith)) λ _.
    Runs-bind _ _ (Runs-write_memory _ _ (omega arith)) λ _. Runs-write_memory _ _ (omega arith)

pub exec_set_bcd-Lands :
    (m : Machine) (opcode : ℕ)
    → IsValid m
    → Lands (memory_size ≤ m.cpu.i + 2) (exec_set_bcd opcode m)
unfolding exec_set_bcd ◌>>=◌
exec_set_bcd-Lands m opcode v =
    rw
      (read_register_lem m (opcode_decode_register_x opcode) v.registers_length
        (opcode_decode_register_x-lt opcode))
      ((Runs-write_bcd m.cpu.i _ _ _).at m v)

module _ {F : Type 0} (addr rounds : ℕ) where
  this_byte : (addr + suc rounds ≤ memory_size) ⊎ F → (addr < memory_size) ⊎ F
  this_byte (inl h) = inl (omega arith)
  this_byte (inr x) = inr x

  next_bytes : (addr + suc rounds ≤ memory_size) ⊎ F → (u16 (addr + 1) + rounds ≤ memory_size) ⊎ F
  next_bytes (inl h) = inl (omega arith)
  next_bytes (inr x) = inr x

Runs-reg_dump_from :
    {F : Type 0} (rounds i addr : ℕ)
    → rounds + i ≤ 16
    → (addr + rounds ≤ memory_size) ⊎ F
    → Runs F (reg_dump_from rounds i addr)
unfolding reg_dump_from
Runs-reg_dump_from zero i addr h k = Runs-pure tt
Runs-reg_dump_from (suc rounds) i addr h k = Runs-bind _ _ (Runs-read_register i (omega arith)) λ _.
    Runs-bind _ _ (Runs-write_memory _ _ (this_byte addr rounds k)) λ _.
      Runs-reg_dump_from rounds (i + 1) (u16 (addr + 1)) (omega arith) (next_bytes addr rounds k)

Runs-reg_load_from :
    {F : Type 0} (rounds i addr : ℕ)
    → rounds + i ≤ 16
    → (addr + rounds ≤ memory_size) ⊎ F
    → Runs F (reg_load_from rounds i addr)
unfolding reg_load_from
Runs-reg_load_from zero i addr h k = Runs-pure tt
Runs-reg_load_from (suc rounds) i addr h k =
    Runs-bind _ _ (Runs-read_memory _ (this_byte addr rounds k)) λ _.
      Runs-bind _ _ (Runs-write_register i _ (omega arith)) λ _.
        Runs-reg_load_from rounds (i + 1) (u16 (addr + 1)) (omega arith) (next_bytes addr rounds k)

pub exec_reg_dump-Lands :
    (m : Machine) (opcode : ℕ)
    → IsValid m
    → Lands (memory_size ≤ m.cpu.i + opcode_decode_register_x opcode) (exec_reg_dump opcode m)
unfolding exec_reg_dump ◌>>=◌
exec_reg_dump-Lands m opcode v =
    (Runs-reg_dump_from (opcode_decode_register_x opcode + 1) 0 m.cpu.i
        (omega (arith, opcode_decode_register_x-lt opcode)) (omega arith)).at
      m v

pub exec_reg_load-Lands :
    (m : Machine) (opcode : ℕ)
    → IsValid m
    → Lands (memory_size ≤ m.cpu.i + opcode_decode_register_x opcode) (exec_reg_load opcode m)
unfolding exec_reg_load ◌>>=◌
exec_reg_load-Lands m opcode v =
    (Runs-reg_load_from (opcode_decode_register_x opcode + 1) 0 m.cpu.i
        (omega (arith, opcode_decode_register_x-lt opcode)) (omega arith)).at
      m v

keyboard_is_key_pressed-none :
    (keyboard_state : KeyboardState) (k : ℕ)
    → keyboard_is_key_pressed keyboard_state k ≡ none
    → 16 ≤ k
unfolding keyboard_is_key_pressed
keyboard_is_key_pressed-none keyboard_state k e = elim (dec_lt k 16) [
  | yes inside ↦ ground (arith, get_elem?-eq-get_or keymap k sc_x inside)
  | no outside ↦ omega arith
]

module _ (m : Machine) (keyboard_state : KeyboardState) (opcode : ℕ) (v : IsValid m) where
  abbrev key : ℕ
  key = register m (opcode_decode_register_x opcode)

  pub exec_if_key_equals_to_vx-Lands :
      Lands
        (16 ≤ register m (opcode_decode_register_x opcode))
        (exec_if_key_equals_to_vx keyboard_state opcode m)
  unfolding exec_if_key_equals_to_vx ◌>>=◌
  exec_if_key_equals_to_vx-Lands =
      rw
        (read_register_lem m (opcode_decode_register_x opcode) v.registers_length
          (opcode_decode_register_x-lt opcode))
        (elim (Option-cases (keyboard_is_key_pressed keyboard_state key)) [
          | inl outside ↦
              rw outside (faults (keyboard_is_key_pressed-none keyboard_state key outside))
          | inr (pressed, e) ↦
              rw e ((Runs-if pressed _ _ Runs-cpu_pc_advance (Runs-pure tt)).at m v)
        ])

  pub exec_if_key_not_equals_to_vx-Lands :
      Lands
        (16 ≤ register m (opcode_decode_register_x opcode))
        (exec_if_key_not_equals_to_vx keyboard_state opcode m)
  unfolding exec_if_key_not_equals_to_vx ◌>>=◌
  exec_if_key_not_equals_to_vx-Lands =
      rw
        (read_register_lem m (opcode_decode_register_x opcode) v.registers_length
          (opcode_decode_register_x-lt opcode))
        (elim (Option-cases (keyboard_is_key_pressed keyboard_state key)) [
          | inl outside ↦
              rw outside (faults (keyboard_is_key_pressed-none keyboard_state key outside))
          | inr (pressed, e) ↦
              rw e ((Runs-if (not pressed) _ _ Runs-cpu_pc_advance (Runs-pure tt)).at m v)
        ])

module _ (m : Machine) (opcode : ℕ) (v : IsValid m) where
  abbrev sprite_len : ℕ
  sprite_len = opcode_decode_const_4bit opcode

  abbrev vx : ℕ
  vx = register m (opcode_decode_register_x opcode)

  abbrev vy : ℕ
  vy = register m (opcode_decode_register_y opcode)

  abbrev drawn : Drawn
  drawn = display_draw_sprite m.display vx vy (drop m.cpu.i m.memory) sprite_len

  -- The instruction after its reads of registers.
  exec_display_draw_sprite_at_lem :
      exec_display_draw_sprite_at opcode m
      ≡ ((if leb m.cpu.i memory_size then skip else (λ n. fault))
            >> (or_fault drawn >>= λ p.
                modify (λ n. record n { display = p.0 })
                >> write_register vf (if p.1 then 1 else 0)))
          m
  unfolding exec_display_draw_sprite_at ◌>>=◌
  exec_display_draw_sprite_at_lem =
      rw
        (
          read_register_lem m (opcode_decode_register_x opcode) v.registers_length
              (opcode_decode_register_x-lt opcode),
          read_register_lem m (opcode_decode_register_y opcode) v.registers_length
              (opcode_decode_register_y-lt opcode),
        )
        (elim (Bool-cases (leb m.cpu.i memory_size)) [ inl e ↦ rw e | inr e ↦ rw e ])

  -- With the sprite in memory the instruction draws it and sets the flag.
  pub exec_display_draw_sprite_at_inside :
      (inside : m.cpu.i + sprite_len ≤ memory_size)
      → (draws : Draws m.display (sprite_bit vx vy (drop m.cpu.i m.memory) sprite_len) drawn)
        × (exec_display_draw_sprite_at opcode m
            ≡ write_register vf
                (if draws.erased then 1 else 0)
                (record m { display = draws.display }))
  unfolding ◌>>=◌
  exec_display_draw_sprite_at_inside inside =
      let draws : Draws m.display (sprite_bit vx vy (drop m.cpu.i m.memory) sprite_len) drawn =
        display_draw_sprite-Draws m.display vx vy (drop m.cpu.i m.memory) sprite_len
          v.display_length (omega (arith, length-drop m.cpu.i m.memory, v.memory_length))
          (omega (arith, opcode_decode_const_4bit_lem opcode)) in
      (
        draws,
        rw (
          exec_display_draw_sprite_at_lem,
          le→leb m.cpu.i memory_size (omega arith),
          draws.returns,
        ),
      )

  exec_display_draw_sprite_at_outside :
      memory_size < m.cpu.i + sprite_len → exec_display_draw_sprite_at opcode m ≡ fault
  unfolding ◌>>=◌
  exec_display_draw_sprite_at_outside outside =
      rw exec_display_draw_sprite_at_lem (elim (Bool-cases (leb m.cpu.i memory_size)) [
        | inl e ↦ rw (
          e,
          display_draw_sprite-none m.display vx vy (drop m.cpu.i m.memory) sprite_len
              v.display_length
              (omega (
                arith,
                length-drop m.cpu.i m.memory,
                v.memory_length,
                leb→le m.cpu.i memory_size e,
              )),
        )
        | inr e ↦ rw e
      ])

  pub exec_display_draw_sprite_at-Lands :
      Lands
        (memory_size < m.cpu.i + opcode_decode_const_4bit opcode)
        (exec_display_draw_sprite_at opcode m)
  exec_display_draw_sprite_at-Lands = elim (dec_le (m.cpu.i + sprite_len) memory_size) [
    | yes inside ↦
        let (draws, e) = exec_display_draw_sprite_at_inside inside in
        rw e (
          (Runs-write_register vf _ (omega arith)).at (record m { display = draws.display })
            (ground arith))
    | no outside ↦ rw (exec_display_draw_sprite_at_outside (omega arith)) (faults (omega arith))
  ]
